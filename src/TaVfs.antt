-- ===== src/TaVfs.antt =====
-- The SQLite VFS of the trusted application, optee_examples/tee_sqilte/ta/tee_vfs.c: a file with the
-- write buffer of a journal, over the calls utee_vfs_*. Those are parameters here, a record `Utee`
-- over a state `S`; optee_os/core/tee/tee_sqlite.c, behind them, is modelled in Core.
pub mod Write
pub mod Overlay
pub mod Buffer
pub mod Contents
pub mod Rounds
pub mod Read
pub mod Durable
pub mod Calls
pub mod Steps
pub mod Sessions
pub mod Names
pub mod Deleted
pub mod Opened
mod NameTests
mod Tests
use tee_sqlite.Prelude.{
  ℕ, ◌+◌, List, [], ◌∷◌, ◌++◌, Option, none, some, Bool, true, false, ◌==◌, if◌then◌else◌, take,
  drop, length, low32, not, ltb, ◌-◌, replicate, minus_one64, ◌^◌,
}

-- SQLITE_* results.
pub data Rc : Type 0 where
  sqlite_ok sqlite_ioerr sqlite_nomem sqlite_cantopen : Rc
  sqlite_ioerr_read sqlite_ioerr_short_read sqlite_ioerr_write sqlite_ioerr_fsync : Rc
  sqlite_ioerr_fstat sqlite_ioerr_delete : Rc

-- `lseek` is the call with SEEK_SET. `read` gives its result and the bytes at the caller's buffer
-- after it; results are 64-bit words, of fsync and close 32-bit ones.
pub record Utee (S : Type 0) : Type 0 where
  pub lseek : ℕ → ℕ → S → ℕ × S
  pub write : ℕ → List ℕ → S → ℕ × S
  pub read : ℕ → ℕ → S → ℕ × List ℕ × S
  pub fsync : ℕ → S → ℕ × S
  pub close : ℕ → S → S
  pub filesize : ℕ → S → ℕ × S

-- SQLITE_TEEVFS_BUFFERSZ.
unfoldable pub buffer_size : ℕ
buffer_size = 8192

-- `struct DemoFile`, less `base`, whose table of methods is constant: `a_buffer` holds the bytes
-- behind the pointer, `none` for NULL.
pub record DemoFile : Type 0 where
  pub fd : ℕ
  pub a_buffer : Option (List ℕ)
  pub n_buffer : ℕ
  pub i_buffer_ofst : ℕ

-- The bytes behind the pointer.
abbrev pub bytes_of : DemoFile → List ℕ
bytes_of p = elim p.a_buffer [ none ↦ [] | some buf ↦ buf ]

-- The valid ones.
abbrev pub pending : DemoFile → List ℕ
pending p = take p.n_buffer (bytes_of p)

-- `zBuf` after the read of `i_amt` bytes: `n_read` is an `int`, negative from 2 ^ 31 on.
unfoldable pub read_result : ℕ → ℕ → List ℕ → Rc × List ℕ
read_result i_amt n_read z_buf =
    if n_read == i_amt
    then (sqlite_ok, z_buf)
    else if ltb n_read (2 ^ 31)
    then (
      sqlite_ioerr_short_read,
      if ltb n_read i_amt then take n_read z_buf ++ replicate (i_amt - n_read) 0 else z_buf,
    )
    else (sqlite_ioerr_read, z_buf)

module _ {S : Type 0} (u : Utee S) where
  unfoldable pub direct_write : DemoFile → List ℕ → ℕ → S → Rc × S
  direct_write p z_buf i_ofst s =
      let (ofst, s1) = u.lseek p.fd i_ofst s in
      if not (ofst == i_ofst)
      then (sqlite_ioerr_write, s1)
      else let (n_write, s2) = u.write p.fd z_buf s1 in
        if not (n_write == length z_buf) then (sqlite_ioerr_write, s2) else (sqlite_ok, s2)

  -- `n_buffer` is reset also where the write fails.
  unfoldable pub flush_buffer : DemoFile → S → Rc × DemoFile × S
  flush_buffer p s =
      if p.n_buffer == 0
      then (sqlite_ok, p, s)
      else let (rc, s') = direct_write p (pending p) p.i_buffer_ofst s in
        (rc, record p { n_buffer = 0 }, s')

  -- The buffer is freed and the descriptor closed whatever the flush returns.
  unfoldable pub demo_close : DemoFile → S → Rc × S
  demo_close p s = let (rc, p', s') = flush_buffer p s in (rc, u.close p'.fd s')

  -- The bytes of `zBuf` where they are written, `none` on the returns before.
  unfoldable pub demo_read : DemoFile → ℕ → ℕ → S → Rc × Option (List ℕ) × DemoFile × S
  demo_read p i_amt i_ofst s =
      let (rc, p1, s1) = flush_buffer p s in
      elim rc [
        | sqlite_ok ↦
            let (ofst, s2) = u.lseek p1.fd i_ofst s1 in
            if not (ofst == i_ofst)
            then (sqlite_ioerr_read, none, p1, s2)
            else let (n_read, z_buf, s3) = u.read p1.fd i_amt s2 in
              let (rc', z_buf') = read_result i_amt (low32 n_read) z_buf in
              (rc', some z_buf', p1, s3)
        | failed ↦ (failed, none, p1, s1)
      ]

  unfoldable pub demo_sync : DemoFile → S → Rc × DemoFile × S
  demo_sync p s =
      let (rc, p1, s1) = flush_buffer p s in
      elim rc [
        | sqlite_ok ↦
            let (r, s2) = u.fsync p1.fd s1 in
            (if r == 0 then sqlite_ok else sqlite_ioerr_fsync, p1, s2)
        | failed ↦ (failed, p1, s1)
      ]

  -- `*pSize` where it is written.
  unfoldable pub demo_file_size : DemoFile → S → Rc × Option ℕ × DemoFile × S
  demo_file_size p s =
      let (rc, p1, s1) = flush_buffer p s in
      elim rc [
        | sqlite_ok ↦
            let (r, s2) = u.filesize p1.fd s1 in
            if r == minus_one64
            then (sqlite_ioerr_fstat, none, p1, s2)
            else (sqlite_ok, some r, p1, s2)
        | failed ↦ (failed, none, p1, s1)
      ]
