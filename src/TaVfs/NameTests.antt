-- ===== src/TaVfs/NameTests.antt =====
-- A folder with one file, and a journal in memory that is opened, as in
-- optee_examples/tee_sqilte/ta/tee_vfs.c.
use tee_sqlite.Prelude.{
  ℕ, ◌≡◌, refl, Bool, true, false, ◌==◌, ◌&&◌, List, [], ◌∷◌, none, some, if◌then◌else◌, replicate,
  length-replicate, length, arith, ap, sym, some_inj, ◌∙◌,
}
use tee_sqlite.TaVfs.{sqlite_ok, Utee, DemoFile, buffer_size}
use tee_sqlite.TaVfs.Names.{
  Paths, demo_open, demo_delete, sync_directory, before_last_slash, has_flag, open_main_journal,
}
use tee_sqlite.TaVfs.Deleted.{IsDirectories, demo_delete-stored}
use tee_sqlite.TaVfs.Opened.{demo_open-Behaves}
use tee_sqlite.TaVfs.Tests.{Disk, content, pos, memory_file, memory_file-IsPlain, durable, disk}
use tee_sqlite.TaVfs.Calls.{IsPlain}
use tee_sqlite.TaVfs.Sessions.{FileCall, writes, reads, syncs, Behaves}

-- Whether the file is there, whether it is in stable storage, and the directory that is open.
record Folder : Type 0 where
  here : Bool
  saved : Bool
  dir : List ℕ

-- "/d/f".
abbrev file_name : List ℕ
file_name = 47 ∷ 100 ∷ 47 ∷ 102 ∷ []

abbrev equal : List ℕ → List ℕ → Bool
equal [] [] = true
equal [] (b ∷ bs) = false
equal (x ∷ xs) [] = false
equal (x ∷ xs) (b ∷ bs) = if x == b then equal xs bs else false

abbrev exists : Folder → List ℕ → Bool
exists s q = equal q file_name && s.here

abbrev stored : Folder → List ℕ → Bool
stored s q = equal q file_name && s.saved

abbrev directory : Folder → ℕ → List ℕ
directory s fd = s.dir

abbrev folder_names : Paths Folder
folder_names = record {
  open_path = λ d flags mode s. (3, record s { dir = d });
  unlink = λ q s. if exists s q then (0, 0, record s { here = false }) else (4294967295, 2, s);
  access = λ q mode s. (if exists s q then 0 else 4294967295, s);
  getcwd = λ size s. (some (47 ∷ []), s);
  sleep = λ seconds s. s;
  usleep = λ micro s. s;
  snprintf = λ size q. q;
}

abbrev folder_calls : Utee Folder
folder_calls = record {
  lseek = λ fd o s. (o, s);
  write = λ fd bs s. (length bs, s);
  read = λ fd n s. (0, [], s);
  fsync = λ fd s. (0, record s { saved = s.here });
  close = λ fd s. s;
  filesize = λ fd s. (0, s);
}

folder-IsDirectories : IsDirectories folder_names folder_calls exists stored directory
folder-IsDirectories = record {
  unlinked = λ q s h. ground arith;
  missing = λ q s h e. ground arith;
  open_creates_none = λ d q s. refl;
  opens = λ d s h. refl;
  fsync_creates_none = λ fd q s. refl;
  fsync_stores = λ fd base s h plain. refl;
  close_creates_none = λ fd q s. refl;
  close_stored = λ fd q s. refl;
}

abbrev folder : Folder
folder = record { here = true; saved = true; dir = [] }

deleted : (demo_delete folder_names folder_calls file_name true folder).0 ≡ sqlite_ok
unfolding demo_delete sync_directory before_last_slash
deleted = refl

demo_delete-stored_example :
    (exists (demo_delete folder_names folder_calls file_name true folder).1 file_name ≡ false)
    × (stored (demo_delete folder_names folder_calls file_name true folder).1 file_name ≡ false)
demo_delete-stored_example =
    demo_delete-stored folder_names folder_calls exists stored directory folder-IsDirectories
      (47 ∷ 100 ∷ []) (102 ∷ []) folder (λ e. omega (arith, e), tt) refl refl deleted

abbrev disk_names : Paths Disk
disk_names = record {
  open_path = λ d flags mode s. (3, s);
  unlink = λ q s. (4294967295, 2, s);
  access = λ q mode s. (0, s);
  getcwd = λ size s. (some (47 ∷ []), s);
  sleep = λ seconds s. s;
  usleep = λ micro s. s;
  snprintf = λ size q. q;
}

abbrev blank : List ℕ
blank = replicate buffer_size 0

abbrev closed : DemoFile
closed = record { fd = 0; a_buffer = none; n_buffer = 0; i_buffer_ofst = 0 }

-- SQLITE_OPEN_READWRITE, SQLITE_OPEN_CREATE and SQLITE_OPEN_MAIN_JOURNAL.
abbrev journal_flags : ℕ
journal_flags = 2054

is_journal : has_flag journal_flags open_main_journal ≡ true
is_journal = refl

opened_ok :
    (demo_open disk_names (some blank) (some file_name) closed journal_flags disk).0 ≡ sqlite_ok
unfolding demo_open
opened_ok = refl

opened-IsPlain :
    IsPlain memory_file
      (demo_open disk_names (some blank) (some file_name) closed journal_flags disk).1.fd
      content
      durable
      pos
unfolding demo_open
opened-IsPlain = memory_file-IsPlain

abbrev session : List FileCall
session = writes (4 ∷ 3 ∷ []) 7 ∷ reads 3 6 ∷ syncs ∷ writes (1 ∷ []) 8 ∷ []

blank_whole : (buf : List ℕ) → some blank ≡ some buf → length buf ≡ buffer_size
blank_whole buf e = ap length (sym (some_inj e)) ∙ length-replicate buffer_size 0

demo_open-Behaves_example :
    let r = demo_open disk_names (some blank) (some file_name) closed journal_flags disk in
    Behaves memory_file content durable pos session r.1 r.3 (content r.3)
demo_open-Behaves_example =
    demo_open-Behaves disk_names file_name closed journal_flags disk memory_file content durable pos
      (some blank) session blank_whole opened_ok opened-IsPlain (omega arith, tt)
