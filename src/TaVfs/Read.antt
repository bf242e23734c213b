-- ===== src/TaVfs/Read.antt =====
-- demoRead of optee_examples/tee_sqilte/ta/tee_vfs.c sees what was written, also while it is pending.
use tee_sqlite.Prelude.{
  get_elem?-append, get_elem?-replicate, ℕ, zero, suc, ◌+◌, ◌-◌, ◌^◌, ◌≤◌, ◌<◌, ◌≡◌, ◌⊎◌, inl, inr,
  refl, sym, ap, ◌∙◌, List, [], ◌∷◌, some, arith, ltb, length, take, replicate, get_elem?,
  length-take, Bool-cases, low32, ltb→lt, minus_one64,
}
use tee_sqlite.TaVfs.{
  Rc, sqlite_ok, sqlite_ioerr_short_read, sqlite_ioerr_read, Utee, DemoFile, flush_buffer,
  read_result, demo_read,
}
use tee_sqlite.TaVfs.Contents.{IsFile, logical, flush_buffer-content}

-- What POSIX says of read: of `n` bytes asked for, fewer than 2 ^ 31, a result of at most `n` is the count of bytes
-- read from the offset on, and fewer only at the end of the file; or the result is -1. The caller's
-- buffer has `n` bytes.
pub record IsReadable {S : Type 0} (u : Utee S) (fd : ℕ) (content : S → ℕ → ℕ) (pos : S → ℕ)
    : Type 0 where
  pub file : IsFile u fd content pos
  pub read_range :
      (n : ℕ) (s : S) → n < 2 ^ 31 → ((u.read fd n s).0 ≤ n) ⊎ ((u.read fd n s).0 ≡ minus_one64)
  pub read_length : (n : ℕ) (s : S) → n < 2 ^ 31 → length (u.read fd n s).1 ≡ n
  pub read_bytes :
      (n k : ℕ) (s : S)
      → n < 2 ^ 31
      → (u.read fd n s).0 ≤ n
      → k < (u.read fd n s).0
      → get_elem? (u.read fd n s).1 k ≡ some (content s (pos s + k))
  pub read_end :
      (n k : ℕ) (s : S) → n < 2 ^ 31 → (u.read fd n s).0 ≤ k → k < n → content s (pos s + k) ≡ 0

get_elem?-take : (n : ℕ) (xs : List ℕ) (k : ℕ) → k < n → get_elem? (take n xs) k ≡ get_elem? xs k
get_elem?-take zero xs k h = elim h [ ]
get_elem?-take (suc n) [] k h = refl
get_elem?-take (suc n) (x ∷ xs) zero h = refl
get_elem?-take (suc n) (x ∷ xs) (suc k) h = get_elem?-take n xs k (omega arith)

-- The bytes past a short read are cleared, so the buffer holds the file's bytes `f` throughout.
read_result-holds :
    (i_amt r : ℕ) (bs : List ℕ) (f : ℕ → ℕ) (k : ℕ)
    → r ≤ i_amt
    → i_amt < 2 ^ 31
    → length bs ≡ i_amt
    → k < i_amt
    → (k < r → get_elem? bs k ≡ some (f k))
    → (r ≤ k → f k ≡ 0)
    → get_elem? (read_result i_amt r bs).1 k ≡ some (f k)
unfolding read_result
read_result-holds i_amt r bs f k le small len lt read end = elim (Bool-cases (ltb k r)) [
  | inl within ↦ ground (
    arith,
    get_elem?-append (take r bs) (replicate (i_amt - r) 0) k,
    length-take r bs,
    get_elem?-take r bs k,
    read (omega (arith, ltb→lt)),
  )
  | inr past ↦ ground (
    arith,
    get_elem?-append (take r bs) (replicate (i_amt - r) 0) k,
    length-take r bs,
    get_elem?-replicate {A = ℕ} (i_amt - r) (k - r) 0,
    end (ground arith),
    ap (get_elem? {A = ℕ} (replicate (i_amt - r) 0)) rest_ofst,
  )
]
  where
    rest_ofst : k - length (take r bs) ≡ k - r
    rest_ofst = omega (arith, length-take r bs)

module _ {S : Type 0} (u : Utee S) (content : S → ℕ → ℕ) (pos : S → ℕ) where
  pub fd-flush : (p : DemoFile) (s : S) → (flush_buffer u p s).1.fd ≡ p.fd
  unfolding flush_buffer
  fd-flush p s = ground arith

  -- The calls behind a demoRead that fills the buffer.
  demo_read_split :
      (p : DemoFile) (i_amt i_ofst : ℕ) (s : S) (bs : List ℕ)
      → (demo_read u p i_amt i_ofst s).1 ≡ some bs
      → let sought = u.lseek p.fd i_ofst (flush_buffer u p s).2 in
        let done = u.read p.fd i_amt sought.1 in
        ((flush_buffer u p s).0 ≡ sqlite_ok)
        × (sought.0 ≡ i_ofst)
        × (bs ≡ (read_result i_amt (low32 done.0) done.1).1)
        × ((demo_read u p i_amt i_ofst s).0 ≡ (read_result i_amt (low32 done.0) done.1).0)
  unfolding demo_read
  demo_read_split p i_amt i_ofst s bs got = ground (arith, fd-flush p s)

  read_failed :
      (i_amt : ℕ) (z : List ℕ)
      → i_amt < 2 ^ 31
      → (read_result i_amt (2 ^ 32 - 1) z).0 ≡ sqlite_ioerr_read
  unfolding read_result
  read_failed i_amt z h = ground arith

  not_failed :
      {rc : Rc} → rc ≡ sqlite_ioerr_read → (rc ≡ sqlite_ok) ⊎ (rc ≡ sqlite_ioerr_short_read) → ⊥
  not_failed bad fine = ground arith

  -- If demoRead gets as far as a read that does not fail, so that it returns SQLITE_OK or
  -- SQLITE_IOERR_SHORT_READ with bytes in the buffer, then for fewer than 2 ^ 31 bytes asked for,
  -- byte `k` of the buffer is byte `i_ofst + k` of the file as it was before the call, pending bytes
  -- included, and 0 past its end. The calls below are taken to do what POSIX says.
  pub demo_read-logical :
      (p : DemoFile) (i_amt i_ofst k : ℕ) (s : S) (bs : List ℕ)
      → IsReadable u p.fd content pos
      → i_amt < 2 ^ 31
      → k < i_amt
      → ((demo_read u p i_amt i_ofst s).0 ≡ sqlite_ok)
        ⊎ ((demo_read u p i_amt i_ofst s).0 ≡ sqlite_ioerr_short_read)
      → (demo_read u p i_amt i_ofst s).1 ≡ some bs
      → get_elem? bs k ≡ some (logical u content pos p s (i_ofst + k))
  demo_read-logical p i_amt i_ofst k s bs r small lt fine got =
      let s1 = (flush_buffer u p s).2 in
      let s2 = (u.lseek p.fd i_ofst s1).1 in
      let n = (u.read p.fd i_amt s2).0 in
      let z = (u.read p.fd i_amt s2).1 in
      let parts = demo_read_split p i_amt i_ofst s bs got in
      let at : pos s2 ≡ i_ofst = r.file.lseek_pos i_ofst s1 parts.1 in
      let held : (j : ℕ) → content s2 j ≡ logical u content pos p s j = λ j.
        r.file.lseek_content i_ofst s1 j
        ∙ (flush_buffer-content u content pos p s j r.file parts.0).0 in
      let there : (m : ℕ) → content s2 (pos s2 + m) ≡ content s2 (i_ofst + m) =
        λ m. ap (λ q. content s2 (q + m)) at in
      elim (r.read_range i_amt s2 small) [
        | inl le ↦
            let word : low32 n ≡ n = omega arith in
            rw (parts.2, word)
              (read_result-holds i_amt n z (λ m. logical u content pos p s (i_ofst + m)) k le small
                (r.read_length i_amt s2 small) lt
                (λ read.
                  r.read_bytes i_amt k s2 small le read ∙ ap some (there k ∙ held (i_ofst + k)))
                (λ past.
                  sym (held (i_ofst + k)) ∙ sym (there k) ∙ r.read_end i_amt k s2 small past lt))
        | inr failed ↦
            let bad : (demo_read u p i_amt i_ofst s).0 ≡ sqlite_ioerr_read =
              parts.3 ∙ rw failed (read_failed i_amt z small) in
            absurd (not_failed bad fine)
      ]
