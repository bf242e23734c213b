-- ===== src/TaVfs/Names.antt =====
-- The methods of optee_examples/tee_sqilte/ta/tee_vfs.c that take a name: demoOpen, demoDelete,
-- demoAccess and demoFullPathname, and demoSleep. A name is the list of its bytes.
use tee_sqlite.Prelude.{
  ℕ, ◌+◌, ◌/◌, ◌%◌, ◌^◌, ◌==◌, ◌&&◌, ◌||◌, not, leb, Bool, false, List, [], ◌∷◌, ◌++◌, Option, none,
  some, if◌then◌else◌,
}
use Prim.Native.Nat.{bit_and, bit_or}
use tee_sqlite.TaVfs.{
  Rc, sqlite_ok, sqlite_ioerr, sqlite_nomem, sqlite_cantopen, sqlite_ioerr_delete, DemoFile, Utee,
}

-- Calls by name: utee_vfs_open with its flags and mode, utee_vfs_unlink with `*errno`,
-- utee_vfs_access, utee_vfs_getcwd with the size of the buffer (`none` for NULL), utee_vfs_sleep and
-- utee_vfs_usleep; and the string that sqlite3_snprintf leaves in a buffer of so many bytes. Results
-- are words of 32 bits.
pub record Paths (S : Type 0) : Type 0 where
  pub open_path : List ℕ → ℕ → ℕ → S → ℕ × S
  pub unlink : List ℕ → S → ℕ × ℕ × S
  pub access : List ℕ → ℕ → S → ℕ × S
  pub getcwd : ℕ → S → Option (List ℕ) × S
  pub sleep : ℕ → S → S
  pub usleep : ℕ → S → S
  pub snprintf : ℕ → List ℕ → List ℕ

abbrev pub max_path_name : ℕ
max_path_name = 512

abbrev pub enoent : ℕ
enoent = 2

-- SQLITE_OPEN_MAIN_JOURNAL.
abbrev pub open_main_journal : ℕ
open_main_journal = 2048

-- `flags & bit`.
abbrev pub has_flag : ℕ → ℕ → Bool
has_flag flags bit = not (bit_and flags bit == 0)

-- The flags of open for those of SQLite, EXCLUSIVE, CREATE, READONLY and READWRITE.
unfoldable pub open_flags : ℕ → ℕ
open_flags flags =
    let excl = if has_flag flags 16 then 128 else 0 in
    let creat = bit_or excl (if has_flag flags 4 then 64 else 0) in
    let rdonly = bit_or creat (if has_flag flags 1 then 0 else 0) in
    bit_or rdonly (if has_flag flags 2 then 2 else 0)

abbrev pub is_negative : ℕ → Bool
is_negative n = leb (2 ^ 31) n

-- What is before the last slash, if there is one: strrchr, and a NUL put there.
unfoldable pub before_last_slash : List ℕ → Option (List ℕ)
before_last_slash [] = none
before_last_slash (b ∷ bs) = elim (before_last_slash bs) [
  | some dir ↦ some (b ∷ dir)
  | none ↦ if b == 47 then some [] else none
]

-- F_OK, R_OK, and R_OK with W_OK.
unfoldable pub access_mode : ℕ → ℕ
access_mode flags =
    let readwrite = if flags == 1 then 6 else 0 in if flags == 2 then 4 else readwrite

module _ {S : Type 0} (n : Paths S) where
  -- The result, the file, `*pOutFlags` where it is written, and the state. `buffer` is what
  -- sqlite3_malloc gives, `none` for NULL; `p` is the file before.
  unfoldable pub demo_open :
      Option (List ℕ) → Option (List ℕ) → DemoFile → ℕ → S → Rc × DemoFile × Option ℕ × S
  unfolding open_flags
  demo_open buffer none p flags s = (sqlite_ioerr, p, none, s)
  demo_open buffer (some name) p flags s =
      let journal = has_flag flags open_main_journal in
      let (fd, s1) = n.open_path name (open_flags flags) 384 s in
      let opened : Option (List ℕ) → Rc × DemoFile × Option ℕ × S = λ buf.
        if is_negative fd
        then (
          sqlite_cantopen,
          record { fd = fd; a_buffer = none; n_buffer = 0; i_buffer_ofst = 0 },
          none,
          s1,
        )
        else (
          sqlite_ok,
          record { fd = fd; a_buffer = buf; n_buffer = 0; i_buffer_ofst = 0 },
          some flags,
          s1,
        ) in
      if journal
      then elim buffer [ none ↦ (sqlite_nomem, p, none, s) | some buf ↦ opened (some buf) ]
      else opened none

  -- The directory that held the file: open, fsync and close. The result is that of open or fsync.
  unfoldable pub sync_directory : Utee S → List ℕ → S → Bool × S
  sync_directory u dir s =
      let (dfd, s1) = n.open_path dir 0 0 s in
      if is_negative dfd
      then (false, s1)
      else let (rc, s2) = u.fsync dfd s1 in (rc == 0, u.close dfd s2)

  unfoldable pub demo_delete : Utee S → List ℕ → Bool → S → Rc × S
  unfolding before_last_slash sync_directory
  demo_delete u path dir_sync s =
      let (rc, errno, s1) = n.unlink path s in
      if not (rc == 0) && errno == enoent
      then (sqlite_ok, s1)
      else if rc == 0 && dir_sync
      then elim (before_last_slash (n.snprintf max_path_name path)) [
        | none ↦ (sqlite_ok, s1)
        | some dir ↦
            let (done, s2) = sync_directory u dir s1 in
            (if done then sqlite_ok else sqlite_ioerr_delete, s2)
      ]
      else (if rc == 0 then sqlite_ok else sqlite_ioerr_delete, s1)

  -- `*pResOut`; `none` is the assertion on the flags.
  unfoldable pub demo_access : List ℕ → ℕ → S → Option (Bool × S)
  unfolding access_mode
  demo_access path flags s =
      if flags == 0 || flags == 1 || flags == 2
      then (let (rc, s1) = n.access path (access_mode flags) s in some (rc == 0, s1))
      else none

  -- The full name where it is written. The name is not empty.
  unfoldable pub demo_full_pathname : List ℕ → ℕ → S → Rc × Option (List ℕ) × S
  demo_full_pathname [] n_path_out s =
      let (dir, s1) = n.getcwd (max_path_name + 1) s in
      elim dir [
        | none ↦ (sqlite_ioerr, none, s1)
        | some cwd ↦ (sqlite_ok, some (n.snprintf n_path_out (cwd ++ (47 ∷ []))), s1)
      ]
  demo_full_pathname (b ∷ path) n_path_out s =
      if b == 47
      then (sqlite_ok, some (n.snprintf n_path_out (47 ∷ b ∷ path)), s)
      else (let (dir, s1) = n.getcwd (max_path_name + 1) s in
          elim dir [
            | none ↦ (sqlite_ioerr, none, s1)
            | some cwd ↦ (sqlite_ok, some (n.snprintf n_path_out (cwd ++ (47 ∷ b ∷ path))), s1)
          ])

  -- `n_micro` is not negative.
  unfoldable pub demo_sleep : ℕ → S → ℕ × S
  demo_sleep n_micro s = (n_micro, n.usleep (n_micro % 1000000) (n.sleep (n_micro / 1000000) s))
