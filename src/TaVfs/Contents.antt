-- ===== src/TaVfs/Contents.antt =====
-- The write buffer of optee_examples/tee_sqilte/ta/tee_vfs.c is transparent: what a file holds is the
-- disk's bytes with the pending ones over them, and a write changes that as a direct write would.
use tee_sqlite.Prelude.{
  ℕ, ◌+◌, ◌-◌, ◌≡◌, ◌⊎◌, inl, inr, refl, sym, ap, ◌∙◌, List, [], arith, length, take, length-take,
}
use tee_sqlite.TaVfs.{sqlite_ok, Utee, DemoFile, bytes_of, pending, flush_buffer, direct_write}
use tee_sqlite.TaVfs.Write.{fill, copy_size}
use tee_sqlite.TaVfs.Overlay.{overlay, overlay-nil, overlay-append, overlay-ext}
use tee_sqlite.TaVfs.Buffer.{IsBuffered, pending-fill}

-- What POSIX says of lseek and write on a descriptor, where they report success: `content` are the
-- bytes by offset (0 where there is none), `pos` is the offset.
pub record IsFile {S : Type 0} (u : Utee S) (fd : ℕ) (content : S → ℕ → ℕ) (pos : S → ℕ)
    : Type 0 where
  pub lseek_content : (o : ℕ) (s : S) (j : ℕ) → content (u.lseek fd o s).1 j ≡ content s j
  pub lseek_pos : (o : ℕ) (s : S) → (u.lseek fd o s).0 ≡ o → pos (u.lseek fd o s).1 ≡ o
  pub write_content :
      (bs : List ℕ) (s : S) (j : ℕ)
      → (u.write fd bs s).0 ≡ length bs
      → content (u.write fd bs s).1 j ≡ overlay (pos s) bs (content s) j

module _ {S : Type 0} (u : Utee S) (content : S → ℕ → ℕ) (pos : S → ℕ) where
  -- The bytes of the file as SQLite is to see them.
  abbrev pub logical : DemoFile → S → ℕ → ℕ
  logical p s j = overlay p.i_buffer_ofst (pending p) (content s) j

  pub direct_write-content :
      (p : DemoFile) (bs : List ℕ) (o : ℕ) (s : S) (j : ℕ)
      → IsFile u p.fd content pos
      → (direct_write u p bs o s).0 ≡ sqlite_ok
      → content (direct_write u p bs o s).1 j ≡ overlay o bs (content s) j
  unfolding direct_write
  direct_write-content p bs o s j file h =
      let s1 = (u.lseek p.fd o s).1 in
      ground (
        arith,
        file.lseek_content o s j,
        file.lseek_pos o s,
        file.write_content bs s1 j,
        overlay-ext o bs (content s1) (content s) j,
      )

  -- If a flush succeeds, the disk holds what the file held.
  pub flush_buffer-content :
      (p : DemoFile) (s : S) (j : ℕ)
      → IsFile u p.fd content pos
      → (flush_buffer u p s).0 ≡ sqlite_ok
      → (content (flush_buffer u p s).2 j ≡ logical p s j)
        × ((flush_buffer u p s).1 ≡ record p { n_buffer = 0 })
  unfolding flush_buffer
  flush_buffer-content p s j file h = ground (
    arith,
    direct_write-content p (pending p) p.i_buffer_ofst s j file,
    overlay-nil p.i_buffer_ofst (content s) j,
  )

  -- `pending` is as long as the count says.
  pended : (p : DemoFile) → IsBuffered p → length (pending p) ≡ p.n_buffer
  pended p v = omega (arith, v, length-take p.n_buffer (bytes_of p))

  ofst-fill : (p : DemoFile) (z : List ℕ) (i : ℕ) → (fill p z i).i_buffer_ofst ≡ i - p.n_buffer
  unfolding fill
  ofst-fill p z i = refl

  -- Filling the buffer writes over what the file holds.
  pub fill-logical :
      (p : DemoFile) (z : List ℕ) (i : ℕ) (s : S) (j : ℕ)
      → IsBuffered p
      → (p.n_buffer ≡ 0) ⊎ (p.i_buffer_ofst + p.n_buffer ≡ i)
      → logical (fill p z i) s j ≡ overlay i (take (copy_size p (length z)) z) (logical p s) j
  fill-logical p z i s j v near =
      let k = copy_size p (length z) in
      rw (pending-fill p z i v, ofst-fill p z i)
        (sym (
            overlay-append (i - p.n_buffer) i (pending p) (take k z) (content s) j
              (omega (arith, pended p v)))
          ∙ overlay-ext i (take k z) (overlay (i - p.n_buffer) (pending p) (content s))
              (logical p s) j (same near))
    where
      same :
          (p.n_buffer ≡ 0) ⊎ (p.i_buffer_ofst + p.n_buffer ≡ i)
          → overlay (i - p.n_buffer) (pending p) (content s) j ≡ logical p s j
      same (inl empty) =
          let nil : pending p ≡ [] = ap (λ m. take m (bytes_of p)) empty in
          rw nil (overlay-nil _ (content s) j ∙ sym (overlay-nil p.i_buffer_ofst (content s) j))
      same (inr behind) =
          let e : i - p.n_buffer ≡ p.i_buffer_ofst = omega arith in
          ap (λ o. overlay o (pending p) (content s) j) e
