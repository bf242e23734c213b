-- ===== src/TaVfs/Calls.antt =====
-- What a call of demoWrite, demoRead or demoSync of optee_examples/tee_sqilte/ta/tee_vfs.c is to do to
-- a file, with or without a write buffer, and the system calls behind one that does not fail.
use tee_sqlite.Prelude.{
  ℕ, ◌-◌, ◌^◌, ◌<◌, ◌≡◌, ◌⊎◌, inl, inr, refl, List, Option, none, some, arith, length, take,
  read_at, length-take, length-append, length-replicate, replicate, low32,
}
use tee_sqlite.TaVfs.{
  Rc, sqlite_ok, sqlite_ioerr_short_read, sqlite_ioerr_write, Utee, DemoFile, flush_buffer,
  direct_write, read_result, demo_read, demo_sync,
}
use tee_sqlite.TaVfs.Write.{Written, returned, assertion_failed, out_of_fuel}
use tee_sqlite.TaVfs.Overlay.{overlay}
use tee_sqlite.TaVfs.Buffer.{IsBuffered}
use tee_sqlite.TaVfs.Contents.{logical}
use tee_sqlite.TaVfs.Rounds.{Ended}
use tee_sqlite.TaVfs.Read.{IsReadable, fd-flush}
use tee_sqlite.TaVfs.Durable.{IsDurable}

-- What POSIX says of the calls besides: read and fsync leave the contents.
pub record IsPlain {S : Type 0} (u : Utee S) (fd : ℕ) (content durable : S → ℕ → ℕ) (pos : S → ℕ)
    : Type 0 where
  pub readable : IsReadable u fd content pos
  pub synced : IsDurable u fd content durable pos
  pub read_content :
      (n : ℕ) (s : S) (j : ℕ) → n < 2 ^ 31 → content (u.read fd n s).2 j ≡ content s j
  pub fsync_content : (s : S) (j : ℕ) → content (u.fsync fd s).1 j ≡ content s j

-- A file without a buffer, or with a whole one.
abbrev pub IsShaped : DemoFile → Type 0
IsShaped p = ((p.a_buffer ≡ none) × (p.n_buffer ≡ 0)) ⊎ IsBuffered p

-- A write that returned, and what follows it where it returned SQLITE_OK.
abbrev pub AfterWrite : {S : Type 0} → Written S → (DemoFile → S → Type 0) → Type 0
AfterWrite (returned sqlite_ok p s) later = later p s
AfterWrite (returned _ p s) later = Unit {0}
AfterWrite assertion_failed later = ⊥
AfterWrite out_of_fuel later = ⊥

-- A read of `n` bytes at `i` gives those of `f`, unless it fails.
abbrev pub AfterRead : ℕ → ℕ → (ℕ → ℕ) → Rc → Option (List ℕ) → Type 0 → Type 0
AfterRead n i f sqlite_ok bs later = (bs ≡ some (read_at f i n)) × later
AfterRead n i f sqlite_ioerr_short_read bs later = (bs ≡ some (read_at f i n)) × later
AfterRead n i f _ bs later = Unit {0}

-- A sync leaves `f` in stable storage, unless it fails.
abbrev pub AfterSync : {S : Type 0} → (S → ℕ → ℕ) → (ℕ → ℕ) → Rc → S → Type 0 → Type 0
AfterSync durable f sqlite_ok s later = ((j : ℕ) → durable s j ≡ f j) × later
AfterSync durable f _ s later = Unit {0}

pub after_returned :
    {S : Type 0} (rc : Rc) (p : DemoFile) (s : S) (later : DemoFile → S → Type 0)
    → (rc ≡ sqlite_ok → later p s)
    → AfterWrite (returned rc p s) later
after_returned sqlite_ok p s later h = h refl
after_returned _ p s later h = tt

pub after_read :
    (n i : ℕ) (f : ℕ → ℕ) (rc : Rc) (bs : Option (List ℕ)) (later : Type 0)
    → ((rc ≡ sqlite_ok) ⊎ (rc ≡ sqlite_ioerr_short_read) → (bs ≡ some (read_at f i n)) × later)
    → AfterRead n i f rc bs later
after_read n i f sqlite_ok bs later h = h (inl refl)
after_read n i f sqlite_ioerr_short_read bs later h = h (inr refl)
after_read n i f _ bs later h = tt

pub after_sync :
    {S : Type 0} (durable : S → ℕ → ℕ) (f : ℕ → ℕ) (rc : Rc) (s : S) (later : Type 0)
    → (rc ≡ sqlite_ok → ((j : ℕ) → durable s j ≡ f j) × later)
    → AfterSync durable f rc s later
after_sync durable f sqlite_ok s later h = h refl
after_sync durable f _ s later h = tt

pub length-read_result : (n c : ℕ) (z : List ℕ) → length z ≡ n → length (read_result n c z).1 ≡ n
unfolding read_result
length-read_result n c z e = ground (
  arith,
  length-append (take c z) (replicate (n - c) 0),
  length-take c z,
  length-replicate {A = ℕ} (n - c) 0,
)

module _ {S : Type 0} (u : Utee S) (content : S → ℕ → ℕ) (pos : S → ℕ) where
  -- The file between two calls: it holds `f`, pending bytes included.
  pub record IsOpen (fd : ℕ) (p : DemoFile) (s : S) (f : ℕ → ℕ) : Type 0 where
    pub same_fd : p.fd ≡ fd
    pub shaped : IsShaped p
    pub holds : (j : ℕ) → logical u content pos p s j ≡ f j

  pub after_ended :
      (p : DemoFile) (s : S) (z : List ℕ) (i : ℕ) (out : Written S) (later : DemoFile → S → Type 0)
      → Ended u content pos p s z i out
      → ((p' : DemoFile) (s' : S)
          → IsBuffered p'
          → p'.fd ≡ p.fd
          → ((j : ℕ) → logical u content pos p' s' j ≡ overlay i z (logical u content pos p s) j)
          → later p' s')
      → AfterWrite out later
  after_ended p s z i (returned sqlite_ok p' s') later h k = k p' s' h.0 h.1 h.2
  after_ended p s z i (returned _ p' s') later h k = tt
  after_ended p s z i assertion_failed later h k = h
  after_ended p s z i out_of_fuel later h k = h

  flush_buffer-rc :
      (p : DemoFile) (s : S)
      → ((flush_buffer u p s).0 ≡ sqlite_ok) ⊎ ((flush_buffer u p s).0 ≡ sqlite_ioerr_write)
  unfolding flush_buffer direct_write
  flush_buffer-rc p s = ground arith

  -- The calls behind a demoRead that does not fail.
  pub demo_read-done :
      (p : DemoFile) (n i : ℕ) (s : S)
      → ((demo_read u p n i s).0 ≡ sqlite_ok) ⊎ ((demo_read u p n i s).0 ≡ sqlite_ioerr_short_read)
      → let done = u.read p.fd n (u.lseek p.fd i (flush_buffer u p s).2).1 in
        ((flush_buffer u p s).0 ≡ sqlite_ok)
        × ((demo_read u p n i s).1 ≡ some (read_result n (low32 done.0) done.1).1)
        × ((demo_read u p n i s).2 ≡ (flush_buffer u p s).1)
        × ((demo_read u p n i s).3 ≡ done.2)
  unfolding demo_read
  demo_read-done p n i s fine = ground (arith, fd-flush u content pos p s, flush_buffer-rc p s)

  pub demo_sync-done :
      (p : DemoFile) (s : S)
      → (demo_sync u p s).0 ≡ sqlite_ok
      → ((flush_buffer u p s).0 ≡ sqlite_ok)
        × ((demo_sync u p s).1 ≡ (flush_buffer u p s).1)
        × ((demo_sync u p s).2 ≡ (u.fsync p.fd (flush_buffer u p s).2).1)
  unfolding demo_sync
  demo_sync-done p s ok = ground (arith, fd-flush u content pos p s)
