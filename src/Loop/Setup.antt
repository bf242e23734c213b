-- ===== src/Loop/Setup.antt =====
-- The start of optee_client/tee-supplicant/tee_supplicant.c: main up to the loop of requests, with its
-- options, and make_daemon. What the system answers is a record; messages are left out, and so are the
-- ends of the pipe that are closed.
use tee_sqlite.Prelude.{
  ℕ, ◌-◌, ◌^◌, ◌==◌, not, leb, Bool, true, false, List, [], ◌∷◌, Option, none, some, if◌then◌else◌,
  minus_one32,
}
use tee_sqlite.Loop.Device.{Devices, open_dev, get_dev_fd}
use tee_sqlite.Loop.TaPath.{ta_path, exits, faults, set_ta_path}

-- `supplicant_params`; a string is the list of its bytes.
pub record Params : Type 0 where
  pub fs_parent_path : List ℕ
  pub ta_dir : List ℕ
  pub plugin_load_path : List ℕ
  pub rpmb_cid : List ℕ

-- One result of getopt_long, with `optarg`.
pub data Opt : Type 0 where
  help daemonize unknown : Opt
  fs_parent_path ta_dir plugin_path rpmb_cid : List ℕ → Opt

-- The options read: a usage message with its status, or the parameters and whether to be a daemon.
pub data Options : Type 0 where
  usage : Bool → Options
  options : Params → Bool → Options

-- The loop over the options.
unfoldable pub read_options : List Opt → Params → Bool → Options
read_options [] p d = options p d
read_options (help ∷ os) p d = usage true
read_options (unknown ∷ os) p d = usage false
read_options (daemonize ∷ os) p d = read_options os p true
read_options (fs_parent_path a ∷ os) p d = read_options os (record p { fs_parent_path = a }) d
read_options (ta_dir a ∷ os) p d = read_options os (record p { ta_dir = a }) d
read_options (plugin_path a ∷ os) p d = read_options os (record p { plugin_load_path = a }) d
read_options (rpmb_cid a ∷ os) p d = read_options os (record p { rpmb_cid = a }) d

-- The result of fork, with what the calls behind it answer: in the child setsid, chdir and the open of
-- /dev/null, in the parent the number of bytes that it has read from the pipe.
pub data Fork : Type 0 where
  fork_fails : Fork
  in_child : Bool → Bool → Bool → Fork
  in_parent : ℕ → Fork

-- make_daemon returns an int, or exits with success.
pub data Daemon : Type 0 where
  daemon_returned : ℕ → Daemon
  daemon_exit : Daemon

unfoldable pub make_daemon : Fork → Daemon
make_daemon fork_fails = daemon_returned minus_one32
make_daemon (in_child setsid_ok chdir_ok null_ok) =
    if not setsid_ok
    then daemon_returned (2 ^ 32 - 2)
    else if not chdir_ok
    then daemon_returned (2 ^ 32 - 3)
    else if not null_ok
    then daemon_returned (2 ^ 32 - 4)
    else daemon_returned 0
make_daemon (in_parent n) = if n == 0 then daemon_returned minus_one32 else daemon_exit

-- What the system answers to main: pthread_mutex_init, getopt_long, the arguments that are left, strdup
-- and malloc of set_ta_path, plugin_load_all, pipe, fork, and the write that releases the parent.
pub record Answers : Type 0 where
  pub mutex_ok : Bool
  pub opts : List Opt
  pub args : List (List ℕ)
  pub strdup_ok : Bool
  pub malloc_ok : Bool
  pub path : List ℕ
  pub plugins_ok : Bool
  pub pipe_ok : Bool
  pub fork : Fork
  pub write_ok : Bool

-- How main ends before the loop, or the loop with the descriptor, its gen_caps and the parameters.
pub data Start : Type 0 where
  usage_status : Bool → Start
  exit_failure exit_success faulted : Start
  serving : ℕ → ℕ → Params → Start

-- The device named on the command line; `none` where there are too many arguments.
unfoldable pub device_arg : List (List ℕ) → Option (Option (List ℕ))
device_arg [] = some none
device_arg (dev ∷ []) = some (some dev)
device_arg (dev ∷ extra ∷ args) = none

module _ {W : Type 0} (devices : Devices W) where
  unfoldable pub open_device : Option (List ℕ) → W → Option (ℕ × ℕ) × W
  open_device (some dev) w = open_dev devices dev w
  open_device none w = get_dev_fd devices w

  -- From the opening of the device on: how it ends, whether a byte was written to the pipe for the
  -- parent, and the state.
  unfoldable pub serve : Answers → Params → Bool → Option (ℕ × ℕ) → W → Start × Bool × W
  serve a p d none w = (exit_failure, false, w)
  serve a p true (some fd) w =
      if not a.write_ok then (exit_failure, false, w) else (serving fd.0 fd.1 p, true, w)
  serve a p false (some fd) w = (serving fd.0 fd.1 p, false, w)

  unfoldable pub open_and_serve : Answers → Params → Bool → Option (List ℕ) → W → Start × Bool × W
  unfolding open_device serve
  open_and_serve a p d dev w = let (fd, w') = open_device dev w in serve a p d fd w'

  -- From the test of `daemonize` on.
  unfoldable pub daemonize_and_serve :
      Answers → Params → Bool → Option (List ℕ) → W → Start × Bool × W
  unfolding make_daemon open_and_serve
  daemonize_and_serve a p false dev w = open_and_serve a p false dev w
  daemonize_and_serve a p true dev w =
      if not a.pipe_ok then (exit_failure, false, w) else elim (make_daemon a.fork) [
        | daemon_exit ↦ (exit_success, false, w)
        | daemon_returned e ↦
            if leb (2 ^ 31) e then (exit_failure, false, w) else open_and_serve a p true dev w
      ]

  -- From the arguments that are no options on.
  unfoldable pub with_options : Answers → Options → W → Start × Bool × W
  unfolding device_arg set_ta_path daemonize_and_serve
  with_options a (usage status) w = (usage_status status, false, w)
  with_options a (options p d) w = elim (device_arg a.args) [
    | none ↦ (usage_status false, false, w)
    | some dev ↦ elim (set_ta_path a.strdup_ok a.malloc_ok a.path) [
      | exits ↦ (exit_failure, false, w)
      | faults ↦ (faulted, false, w)
      | ta_path array ↦
          if not a.plugins_ok then (exit_failure, false, w) else daemonize_and_serve a p d dev w
    ]
  ]

  unfoldable pub main : Answers → Params → W → Start × Bool × W
  unfolding read_options with_options
  main a p w =
      if not a.mutex_ok
      then (exit_failure, false, w)
      else with_options a (read_options a.opts p false) w
