-- ===== src/Loop/Daemon.antt =====
-- The two processes of a daemon in optee_client/tee-supplicant/tee_supplicant.c: the parent waits for a
-- byte of the child.
use tee_sqlite.Prelude.{
  ℕ, ◌^◌, ◌≡◌, ◌↔◌, ◌⊎◌, refl, ap, ◌∙◌, ◌==◌, leb, ◌-◌, Bool, true, false, List, Option, none, some,
  if◌then◌else◌, arith, Bool-cases, Option-cases, inl, inr,
}
use tee_sqlite.Loop.Device.{Devices}
use tee_sqlite.Loop.TaPath.{TaPath, ta_path, exits, faults, set_ta_path}
use tee_sqlite.Loop.Setup.{
  Params, Options, usage, options, Fork, in_child, in_parent, daemon_returned, make_daemon, Answers,
  Start, usage_status, exit_failure, exit_success, faulted, serving, device_arg, serve, open_device,
  daemonize_and_serve, with_options, read_options, main,
}

-- Whether a process serves requests.
abbrev pub serves : Start → Bool
serves (serving fd caps p) = true
serves (usage_status b) = false
serves exit_failure = false
serves exit_success = false
serves faulted = false

-- What is in the pipe for the parent to read: the child's byte, if it wrote one.
abbrev pub bytes_from : Bool → ℕ
bytes_from written = if written then 1 else 0

-- Whether the options ask for a daemon, unless they end in a usage message.
abbrev pub asks_daemon : Options → Bool
asks_daemon (options p d) = d
asks_daemon (usage status) = true

-- The answers to a process, which differ in the result of fork.
abbrev pub with_fork : Fork → Answers → Answers
with_fork f a = record a { fork = f }

-- The parent exits with success exactly if the child serves requests.
abbrev Agree : Start → Start → Type 0
Agree parent child = (parent ≡ exit_success) ↔ (serves child ≡ true)

module _ {W : Type 0} (devices : Devices W) (a : Answers) (setsid_ok chdir_ok null_ok : Bool) where
  abbrev pub child_answers : Answers
  child_answers = with_fork (in_child setsid_ok chdir_ok null_ok) a

  serve-Agree :
      (n : ℕ) (p : Params) (fd : Option (ℕ × ℕ)) (w : W)
      → n ≡ bytes_from (serve devices child_answers p true fd w).1
      → Agree
          (if n == 0 then exit_failure else exit_success)
          (serve devices child_answers p true fd w).0
  unfolding serve
  serve-Agree n p none w h = ground arith
  serve-Agree n p (some fd) w h = ground arith

  -- Both processes behind a fork.
  parent_end :
      (n : ℕ) (p : Params) (dev : Option (List ℕ)) (w : W)
      → a.pipe_ok ≡ true
      → (daemonize_and_serve devices (with_fork (in_parent n) a) p true dev w).0
        ≡ (if n == 0 then exit_failure else exit_success)
  unfolding daemonize_and_serve
  parent_end n p dev w pipe = rw (pipe) (ground arith)

  make_daemon-detached :
      (s c k : Bool)
      → make_daemon (in_child s c k) ≡ daemon_returned 0
        ⊎ ((e : ℕ) × (make_daemon (in_child s c k) ≡ daemon_returned e) × (leb (2 ^ 31) e ≡ true))
  unfolding make_daemon
  make_daemon-detached false c k = inr (2 ^ 32 - 2, refl, refl)
  make_daemon-detached true false k = inr (2 ^ 32 - 3, refl, refl)
  make_daemon-detached true true false = inr (2 ^ 32 - 4, refl, refl)
  make_daemon-detached true true true = inl refl

  child_end :
      (p : Params) (dev : Option (List ℕ)) (w : W)
      → a.pipe_ok ≡ true
      → (daemonize_and_serve devices child_answers p true dev w
          ≡ serve devices child_answers p true
              (open_device devices dev w).0
              (open_device devices dev w).1)
        ⊎ (daemonize_and_serve devices child_answers p true dev w ≡ (exit_failure, false, w))
  unfolding daemonize_and_serve
  child_end p dev w pipe = elim (make_daemon-detached setsid_ok chdir_ok null_ok) [
    | inl fine ↦ inl (rw (pipe, fine, daemonize_and_serve) refl)
    | inr failed ↦ inr (rw (pipe, failed.1, daemonize_and_serve, failed.2) refl)
  ]

  daemonize-Agree :
      (n : ℕ) (p : Params) (d : Bool) (dev : Option (List ℕ)) (w : W)
      → d ≡ true
      → n ≡ bytes_from (daemonize_and_serve devices child_answers p d dev w).1
      → Agree
          (daemonize_and_serve devices (with_fork (in_parent n) a) p d dev w).0
          (daemonize_and_serve devices child_answers p d dev w).0
  unfolding daemonize_and_serve
  daemonize-Agree n p false dev w asked h = absurd (ground arith)
  daemonize-Agree n p true dev w asked h = elim (Bool-cases a.pipe_ok) [
    | inr broken ↦ rw (broken) (ground arith)
    | inl pipe ↦ rw (parent_end n p dev w pipe) (elim (child_end p dev w pipe) [
      | inl goes ↦ rw (goes) (
          serve-Agree n p (open_device devices dev w).0 (open_device devices dev w).1
            (h ∙ ap (λ (r : Start × Bool × W). bytes_from r.1) goes))
      | inr failed ↦
          rw (failed) (not_released (h ∙ ap (λ (r : Start × Bool × W). bytes_from r.1) failed))
    ])
  ]
    where
      not_released : n ≡ 0 → Agree (if n == 0 then exit_failure else exit_success) exit_failure
      not_released e = ground arith

  with_options-Agree :
      (n : ℕ) (o : Options) (w : W)
      → asks_daemon o ≡ true
      → n ≡ bytes_from (with_options devices child_answers o w).1
      → Agree
          (with_options devices (with_fork (in_parent n) a) o w).0
          (with_options devices child_answers o w).0
  unfolding with_options
  with_options-Agree n (usage b) w asked h = ground arith
  with_options-Agree n (options p d) w asked h = elim (Option-cases (device_arg a.args)) [
    | inl many ↦ rw (many, with_options) (ground arith)
    | inr dev ↦ with_path dev.0 dev.1 (set_ta_path a.strdup_ok a.malloc_ok a.path) refl
  ]
    where
      with_path :
          (dev : Option (List ℕ))
          → device_arg a.args ≡ some dev
          → (t : TaPath) → set_ta_path a.strdup_ok a.malloc_ok a.path ≡ t
          → Agree
              (with_options devices (with_fork (in_parent n) a) (options p d) w).0
              (with_options devices child_answers (options p d) w).0
      with_path dev there exits run = rw (there, run, with_options) (ground arith)
      with_path dev there faults run = rw (there, run, with_options) (ground arith)
      with_path dev there (ta_path array) run = elim (Bool-cases a.plugins_ok) [
        | inr failed ↦ rw (there, run, with_options, failed) (ground arith)
        | inl loaded ↦
            let child : with_options devices child_answers (options p d) w
                ≡ daemonize_and_serve devices child_answers p d dev w =
              rw (there, run, with_options, loaded) refl in
            rw (there, run, with_options, loaded)
              (daemonize-Agree n p d dev w asked
                (h ∙ ap (λ (r : Start × Bool × W). bytes_from r.1) child))
      ]

  -- Where the options ask for a daemon, and the parent reads from the pipe what the child has
  -- written to it, the parent exits with success exactly if the child serves requests: on every path
  -- through the options, the directories, the plugins, setsid, chdir, the opening of the device and
  -- the write to the pipe, in both processes. The system is taken to answer both alike but for fork
  -- and what is behind it.
  pub main-Agree :
      (n : ℕ) (p : Params) (w : W)
      → asks_daemon (read_options a.opts p false) ≡ true
      → n ≡ bytes_from (main devices child_answers p w).1
      → ((main devices (with_fork (in_parent n) a) p w).0 ≡ exit_success)
        ↔ (serves (main devices child_answers p w).0 ≡ true)
  unfolding main
  main-Agree n p w asked h = elim (Bool-cases a.mutex_ok) [
    | inr failed ↦ rw (failed) (ground arith)
    | inl there ↦
        let child : main devices child_answers p w
            ≡ with_options devices child_answers (read_options a.opts p false) w =
          rw (there) refl in
        rw (there) (
          with_options-Agree n (read_options a.opts p false) w asked
            (h ∙ ap (λ (r : Start × Bool × W). bytes_from r.1) child))
  ]
