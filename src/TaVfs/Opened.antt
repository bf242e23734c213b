-- ===== src/TaVfs/Opened.antt =====
-- A file from demoOpen in optee_examples/tee_sqilte/ta/tee_vfs.c, and calls on it.
use tee_sqlite.Prelude.{
  ℕ, ◌≡◌, refl, true, List, Option, none, some, if◌then◌else◌, length, arith, Bool-cases, inl, inr,
}
use tee_sqlite.TaVfs.{sqlite_ok, DemoFile, Utee, buffer_size}
use tee_sqlite.TaVfs.Names.{Paths, demo_open, open_flags, has_flag, open_main_journal, is_negative}
use tee_sqlite.TaVfs.Buffer.{IsBuffered}
use tee_sqlite.TaVfs.Calls.{IsPlain, IsShaped}
use tee_sqlite.TaVfs.Steps.{none_pending}
use tee_sqlite.TaVfs.Sessions.{FileCall, AllSmall, Behaves, Behaves-IsOpen}

module _ {S : Type 0} (n : Paths S) (u : Utee S) (content : S → ℕ → ℕ) (pos : S → ℕ)
    (buf name : List ℕ) (p : DemoFile) (flags : ℕ) (s : S) where
  -- What demoOpen leaves where it returns SQLITE_OK.
  abbrev opened : DemoFile
  opened = record {
    fd = (n.open_path name (open_flags flags) 384 s).0;
    a_buffer = some buf;
    n_buffer = 0;
    i_buffer_ofst = 0;
  }

  demo_open-opened :
      has_flag flags open_main_journal ≡ true
      → (demo_open n (some buf) (some name) p flags s).0 ≡ sqlite_ok
      → demo_open n (some buf) (some name) p flags s
        ≡ (sqlite_ok, opened, some flags, (n.open_path name (open_flags flags) 384 s).1)
  unfolding demo_open
  demo_open-opened journal ok =
      elim (Bool-cases (is_negative (n.open_path name (open_flags flags) 384 s).0)) [
        | inl failed ↦ absurd (ground arith)
        | inr there ↦ rw (journal, if◌then◌else◌, there, if◌then◌else◌) refl
      ]

  opened-IsBuffered : length buf ≡ buffer_size → IsBuffered opened
  opened-IsBuffered wide = record { whole = wide; within = omega arith }

module _ {S : Type 0} (n : Paths S) (name : List ℕ) (p : DemoFile) (flags : ℕ) (s : S) where
  -- What demoOpen leaves in general where it returns SQLITE_OK: nothing is pending, and the buffer is
  -- none or whole.
  abbrev IsFresh : DemoFile → Type 0
  IsFresh q = (q.n_buffer ≡ 0) × IsShaped q

  demo_open-IsFresh :
      (buffer : Option (List ℕ))
      → ((buf : List ℕ) → buffer ≡ some buf → length buf ≡ buffer_size)
      → (demo_open n buffer (some name) p flags s).0 ≡ sqlite_ok
      → IsFresh (demo_open n buffer (some name) p flags s).1
  unfolding demo_open
  demo_open-IsFresh none wide ok = elim (Bool-cases (has_flag flags open_main_journal)) [
    | inl journal ↦ absurd (ground arith)
    | inr plain ↦ elim (Bool-cases (is_negative (n.open_path name (open_flags flags) 384 s).0)) [
      | inl failed ↦ absurd (ground arith)
      | inr there ↦ rw (plain, there, if◌then◌else◌) (refl, inl (refl, refl))
    ]
  ]
  demo_open-IsFresh (some buf) wide ok =
      elim (Bool-cases (is_negative (n.open_path name (open_flags flags) 384 s).0)) [
        | inl failed ↦ absurd (ground arith)
        | inr there ↦ elim (Bool-cases (has_flag flags open_main_journal)) [
          | inl journal ↦
              rw (journal, there, if◌then◌else◌)
                (refl, inr (record { whole = wide buf refl; within = omega arith }))
          | inr plain ↦ rw (plain, there, if◌then◌else◌) (refl, inl (refl, refl))
        ]
      ]

  -- demoOpen that returns SQLITE_OK, of a main journal or of any other file, gives a file on which
  -- any calls of demoWrite, demoRead and demoSync one after the other, where each read asks for
  -- fewer than 2 ^ 31 bytes, behave as on the array of bytes that is on the disk, up to the first
  -- call that fails: a write that returns SQLITE_OK writes into the array, a read gives exactly its
  -- bytes, a sync leaves it in stable storage, no assertion fails and each call returns.
  -- sqlite3_malloc is taken to give as many bytes as are asked for, and the calls on the file to do
  -- what POSIX says.
  pub demo_open-Behaves :
      (u : Utee S) (content durable : S → ℕ → ℕ) (pos : S → ℕ) (buffer : Option (List ℕ))
      (calls : List FileCall)
      → ((buf : List ℕ) → buffer ≡ some buf → length buf ≡ buffer_size)
      → (demo_open n buffer (some name) p flags s).0 ≡ sqlite_ok
      → IsPlain u (demo_open n buffer (some name) p flags s).1.fd content durable pos
      → AllSmall calls
      → let r = demo_open n buffer (some name) p flags s in
        Behaves u content durable pos calls r.1 r.3 (content r.3)
  demo_open-Behaves u content durable pos buffer calls wide ok plain small =
      let r = demo_open n buffer (some name) p flags s in
      let fresh = demo_open-IsFresh buffer wide ok in
      Behaves-IsOpen u content durable pos r.1.fd plain calls r.1 r.3 (content r.3) small (record {
        same_fd = refl;
        shaped = fresh.1;
        holds = λ j. none_pending u content durable pos r.1 r.3 j fresh.0;
      })
