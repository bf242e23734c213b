-- ===== src/TaVfs/Durable.antt =====
-- demoSync, demoClose and demoFileSize of optee_examples/tee_sqilte/ta/tee_vfs.c on a file with
-- pending bytes.
use tee_sqlite.Prelude.{
  ℕ, ◌+◌, ◌≡◌, ◌⊎◌, ◌∙◌, List, some, arith, ltb, ◌==◌, if◌then◌else◌, length, length-take,
  minus_one64,
}
use tee_sqlite.TaVfs.{
  sqlite_ok, Utee, DemoFile, bytes_of, pending, direct_write, flush_buffer, demo_close, demo_sync,
  demo_file_size,
}
use tee_sqlite.TaVfs.Buffer.{IsBuffered}
use tee_sqlite.TaVfs.Contents.{IsFile, logical, flush_buffer-content}

-- The larger one.
abbrev pub max : ℕ → ℕ → ℕ
max m n = if ltb m n then n else m

-- What POSIX says of fsync: where it reports 0 it leaves the contents in stable storage, `durable`.
pub record IsDurable {S : Type 0} (u : Utee S) (fd : ℕ) (content durable : S → ℕ → ℕ) (pos : S → ℕ)
    : Type 0 where
  pub file : IsFile u fd content pos
  pub fsync_durable :
      (s : S) (j : ℕ) → (u.fsync fd s).0 ≡ 0 → durable (u.fsync fd s).1 j ≡ content s j

-- What POSIX says of close and the size of a file besides: close leaves the contents; a write that reports success extends the
-- file to its end, lseek leaves the size, and the size is what is reported, unless it is -1.
pub record IsStored {S : Type 0} (u : Utee S) (fd : ℕ) (content durable : S → ℕ → ℕ)
    (pos size : S → ℕ) : Type 0 where
  pub synced : IsDurable u fd content durable pos
  pub close_content : (s : S) (j : ℕ) → content (u.close fd s) j ≡ content s j
  pub lseek_size : (o : ℕ) (s : S) → size (u.lseek fd o s).1 ≡ size s
  pub write_size :
      (bs : List ℕ) (s : S)
      → (u.write fd bs s).0 ≡ length bs
      → size (u.write fd bs s).1 ≡ max (size s) (pos s + length bs)
  pub filesize_size : (s : S) → ((u.filesize fd s).0 ≡ size s) ⊎ ((u.filesize fd s).0 ≡ minus_one64)

module _ {S : Type 0} (u : Utee S) (content durable : S → ℕ → ℕ) (pos size : S → ℕ) where
  fd-flush : (p : DemoFile) (s : S) → (flush_buffer u p s).1.fd ≡ p.fd
  unfolding flush_buffer
  fd-flush p s = ground arith

  -- If demoSync returns SQLITE_OK, then stable storage holds all that was written to the file,
  -- pending bytes included, and nothing is pending any more.
  pub demo_sync-durable :
      (p : DemoFile) (s : S) (j : ℕ)
      → IsDurable u p.fd content durable pos
      → (demo_sync u p s).0 ≡ sqlite_ok
      → (durable (demo_sync u p s).2 j ≡ logical u content pos p s j)
        × ((demo_sync u p s).1.n_buffer ≡ 0)
  unfolding demo_sync
  demo_sync-durable p s j st h = ground (
    arith,
    fd-flush p s,
    flush_buffer-content u content pos p s j st.file,
    st.fsync_durable (flush_buffer u p s).2 j,
  )

  -- If demoClose returns SQLITE_OK, then the file holds all that was written to it.
  pub demo_close-content :
      (p : DemoFile) (s : S) (j : ℕ)
      → IsStored u p.fd content durable pos size
      → (demo_close u p s).0 ≡ sqlite_ok
      → content (demo_close u p s).1 j ≡ logical u content pos p s j
  unfolding demo_close
  demo_close-content p s j st h = rw (fd-flush p s) (
      st.close_content (flush_buffer u p s).2 j
      ∙ (flush_buffer-content u content pos p s j st.synced.file h).0)

  -- The size of the file as SQLite is to see it.
  abbrev pub logical_size : DemoFile → S → ℕ
  logical_size p s = if p.n_buffer == 0 then size s else max (size s) (p.i_buffer_ofst + p.n_buffer)

  direct_write-size :
      (p : DemoFile) (bs : List ℕ) (o : ℕ) (s : S)
      → IsStored u p.fd content durable pos size
      → (direct_write u p bs o s).0 ≡ sqlite_ok
      → size (direct_write u p bs o s).1 ≡ max (size s) (o + length bs)
  unfolding direct_write
  direct_write-size p bs o s st h =
      let s1 = (u.lseek p.fd o s).1 in
      ground (arith, st.lseek_size o s, st.synced.file.lseek_pos o s, st.write_size bs s1)

  flush_buffer-size :
      (p : DemoFile) (s : S)
      → IsStored u p.fd content durable pos size
      → IsBuffered p
      → (flush_buffer u p s).0 ≡ sqlite_ok
      → size (flush_buffer u p s).2 ≡ logical_size p s
  unfolding flush_buffer
  flush_buffer-size p s st v h = ground (
    arith,
    direct_write-size p (pending p) p.i_buffer_ofst s st,
    length-take p.n_buffer (bytes_of p),
    v,
  )

  -- If demoFileSize returns SQLITE_OK on a file with a buffer, then the size that it gives counts the
  -- pending bytes.
  demo_file_size-logical :
      (p : DemoFile) (s : S)
      → IsStored u p.fd content durable pos size
      → IsBuffered p
      → (demo_file_size u p s).0 ≡ sqlite_ok
      → (demo_file_size u p s).1 ≡ some (logical_size p s)
  unfolding demo_file_size
  demo_file_size-logical p s st v h =
      ground
        (arith, fd-flush p s, flush_buffer-size p s st v, st.filesize_size (flush_buffer u p s).2)
