-- ===== src/Codec/TagLaws.antt =====
-- What createMap and closeMap of optee_examples/tee_sqilte/ta/codec.c rely on of the calls on their file.
use tee_sqlite.Prelude.{ℕ, ◌+◌, ◌≤◌, ◌≡◌, List, [], ◌++◌, length}
use tee_sqlite.TaVfs.{Utee}
use tee_sqlite.TaVfs.Names.{Paths}
use tee_sqlite.Codec.{slice}
use tee_sqlite.Codec.TagFile.{mac_log, read_flags, write_flags, mode}

-- What POSIX says of the calls on the file of tags, where none fails: `file` are its bytes, `On` says
-- that a descriptor is open on it, and `pos` is the descriptor's offset.
pub record IsTagFile {S : Type 0} (u : Utee S) (n : Paths S) (file : S → List ℕ) (pos : ℕ → S → ℕ)
    (On : ℕ → S → Type 0) : Type 0 where
  pub truncated_on :
      (s : S)
      → On (n.open_path mac_log write_flags mode s).0 (n.open_path mac_log write_flags mode s).1
  pub truncated : (s : S) → file (n.open_path mac_log write_flags mode s).1 ≡ []
  pub truncated_pos :
      (s : S)
      → pos (n.open_path mac_log write_flags mode s).0 (n.open_path mac_log write_flags mode s).1
        ≡ 0
  pub opened_on :
      (s : S)
      → On (n.open_path mac_log read_flags mode s).0 (n.open_path mac_log read_flags mode s).1
  pub opened : (s : S) → file (n.open_path mac_log read_flags mode s).1 ≡ file s
  pub opened_pos :
      (s : S)
      → pos (n.open_path mac_log read_flags mode s).0 (n.open_path mac_log read_flags mode s).1 ≡ 0
  pub write_on : (fd : ℕ) (bs : List ℕ) (s : S) → On fd s → On fd (u.write fd bs s).1
  pub write_end :
      (fd : ℕ) (bs : List ℕ) (s : S)
      → On fd s
      → pos fd s ≡ length (file s)
      → file (u.write fd bs s).1 ≡ file s ++ bs
  pub write_pos :
      (fd : ℕ) (bs : List ℕ) (s : S) → On fd s → pos fd (u.write fd bs s).1 ≡ pos fd s + length bs
  pub lseek_on : (fd o : ℕ) (s : S) → On fd s → On fd (u.lseek fd o s).1
  pub lseek_file : (fd o : ℕ) (s : S) → On fd s → file (u.lseek fd o s).1 ≡ file s
  pub lseek_pos : (fd o : ℕ) (s : S) → On fd s → pos fd (u.lseek fd o s).1 ≡ o
  pub read_on : (fd k : ℕ) (s : S) → On fd s → On fd (u.read fd k s).2
  pub read_file : (fd k : ℕ) (s : S) → On fd s → file (u.read fd k s).2 ≡ file s
  pub read_end : (fd k : ℕ) (s : S) → On fd s → length (file s) ≤ pos fd s → (u.read fd k s).0 ≡ 0
  pub read_full :
      (fd k : ℕ) (s : S)
      → On fd s
      → pos fd s + k ≤ length (file s)
      → ((u.read fd k s).0 ≡ k) × ((u.read fd k s).1 ≡ slice (pos fd s) k (file s))
  pub close_file : (fd : ℕ) (s : S) → On fd s → file (u.close fd s) ≡ file s
