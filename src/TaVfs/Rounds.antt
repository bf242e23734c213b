-- ===== src/TaVfs/Rounds.antt =====
-- demoWrite of optee_examples/tee_sqilte/ta/tee_vfs.c on a file with a write buffer: each round of its
-- loop, and the whole.
use tee_sqlite.Prelude.{
  ℕ, zero, suc, ◌+◌, ◌≤◌, ◌<◌, ◌≡◌, ◌⊎◌, inl, inr, refl, sym, subst, ap, ◌∙◌, List, [], ◌∷◌, some,
  arith, if◌then◌else◌, length, take, drop, length-take, length-drop, Bool, true, false, ◌==◌, ◌||◌,
  Bool-cases,
}
use tee_sqlite.TaVfs.{Rc, sqlite_ok, Utee, DemoFile, buffer_size, flush_buffer}
use tee_sqlite.TaVfs.Write.{
  Written, returned, assertion_failed, out_of_fuel, fill, copy_size, must_flush, flush_if_needed,
  write_loop, demo_write,
}
use tee_sqlite.TaVfs.Overlay.{overlay, overlay-nil, overlay-append, overlay-ext}
use tee_sqlite.TaVfs.Buffer.{
  IsBuffered, buffer_size-pos, copy_size_bounds, fill-IsBuffered, take-drop_lem,
}
use tee_sqlite.TaVfs.Contents.{IsFile, logical, flush_buffer-content, fill-logical}

module _ {S : Type 0} (u : Utee S) (content : S → ℕ → ℕ) (pos : S → ℕ) where
  -- The head of a round: if the flush there succeeds, or there is none, then the file holds what it
  -- held, the buffer has room, and the pending bytes end where the next ones are to go, or are none.
  record Ready (p p1 : DemoFile) (s s1 : S) (i : ℕ) : Type 0 where
    same_fd : p1.fd ≡ p.fd
    buffered : IsBuffered p1
    room : p1.n_buffer < buffer_size
    near : (p1.n_buffer ≡ 0) ⊎ (p1.i_buffer_ofst + p1.n_buffer ≡ i)
    holds : (j : ℕ) → logical u content pos p1 s1 j ≡ logical u content pos p s j

  kept :
      (p : DemoFile) (i : ℕ)
      → IsBuffered p
      → must_flush p i ≡ false
      → (p.n_buffer < buffer_size) × (p.i_buffer_ofst + p.n_buffer ≡ i)
  unfolding must_flush
  kept p i v keep = ground arith

  flush_if_needed-Ready :
      (p : DemoFile) (i : ℕ) (s : S)
      → IsFile u p.fd content pos
      → IsBuffered p
      → (flush_if_needed u p i s).0 ≡ sqlite_ok
      → Ready p (flush_if_needed u p i s).1 s (flush_if_needed u p i s).2 i
  unfolding flush_if_needed
  flush_if_needed-Ready p i s file v h = elim (Bool-cases (must_flush p i)) [
    | inl flush ↦
        let ok : (flush_buffer u p s).0 ≡ sqlite_ok = ground arith in
        rw (flush, if◌then◌else◌)
          (rw ((flush_buffer-content u content pos p s 0 file ok).1) (record {
            same_fd = refl;
            buffered = record { whole = v.whole; within = omega arith };
            room = buffer_size-pos;
            near = inl refl;
            holds = λ j.
                overlay-nil p.i_buffer_ofst (content (flush_buffer u p s).2) j
                ∙ (flush_buffer-content u content pos p s j file ok).0;
          }))
    | inr keep ↦
        rw (keep, if◌then◌else◌)
          (record {
            same_fd = refl;
            buffered = v;
            room = (kept p i v keep).0;
            near = inr (kept p i v keep).1;
            holds = λ j. refl;
          })
  ]

  -- A write of `z` at `i` that started with `p` and `s` has ended: it returned, and where it
  -- returned SQLITE_OK, the file holds what it held with `z` written over it.
  abbrev pub Ended : DemoFile → S → List ℕ → ℕ → Written S → Type 0
  Ended p s z i (returned sqlite_ok p' s') =
      IsBuffered p'
      × (p'.fd ≡ p.fd)
      × ((j : ℕ) → logical u content pos p' s' j ≡ overlay i z (logical u content pos p s) j)
  Ended p s z i (returned _ p' s') = Unit {0}
  Ended p s z i assertion_failed = ⊥
  Ended p s z i out_of_fuel = ⊥

  Ended-of_step :
      (p : DemoFile) (s : S) (z : List ℕ) (i : ℕ) (rc : Rc) (p1 : DemoFile) (s1 : S) (t : Bool)
      (rest : Written S)
      → (rc ≡ sqlite_ok → (t ≡ true) × Ended p s z i rest)
      → Ended p s z i (elim rc [
        | sqlite_ok ↦ if t then rest else assertion_failed
        | failed ↦ returned failed p1 s1
      ])
  Ended-of_step p s z i sqlite_ok p1 s1 t rest h = rw ((h refl).0) (h refl).1
  Ended-of_step p s z i _ p1 s1 t rest h = tt

  -- What the rest of the bytes does after a chunk.
  Ended-of_chunk :
      (p : DemoFile) (s : S) (z : List ℕ) (i k : ℕ) (p1 : DemoFile) (s1 : S) (out : Written S)
      → p1.fd ≡ p.fd
      → k ≤ length z
      → ((j : ℕ)
          → logical u content pos p1 s1 j ≡ overlay i (take k z) (logical u content pos p s) j)
      → Ended p1 s1 (drop k z) (i + k) out
      → Ended p s z i out
  Ended-of_chunk p s z i k p1 s1 (returned sqlite_ok p' s') same le chunk h = (
    h.0,
    h.1 ∙ same,
    λ j.
        h.2 j
        ∙ overlay-ext (i + k) (drop k z) _ _ j (chunk j)
        ∙ overlay-append i (i + k) (take k z) (drop k z) (logical u content pos p s) j
            (omega (arith, length-take k z))
        ∙ ap (λ bs. overlay i bs (logical u content pos p s) j) (take-drop_lem k z),
  )
  Ended-of_chunk p s z i k p1 s1 (returned _ p' s') same le chunk h = tt
  Ended-of_chunk p s z i k p1 s1 assertion_failed same le chunk h = h
  Ended-of_chunk p s z i k p1 s1 out_of_fuel same le chunk h = h

  fd-fill : (p : DemoFile) (z : List ℕ) (i : ℕ) → (fill p z i).fd ≡ p.fd
  unfolding fill
  fd-fill p z i = refl

  near_test : (n o i : ℕ) → (n ≡ 0) ⊎ (o + n ≡ i) → (n == 0 || o + n == i) ≡ true
  near_test n o i h = ground arith

  write_loop-Ended :
      (fuel : ℕ) (p : DemoFile) (z : List ℕ) (i : ℕ) (s : S)
      → length z < fuel
      → IsFile u p.fd content pos
      → IsBuffered p
      → Ended p s z i (write_loop u fuel p z i s)
  unfolding write_loop
  write_loop-Ended zero p z i s lt file v = elim lt [ ]
  write_loop-Ended (suc fuel) p [] i s lt file v =
      (v, refl, λ j. sym (overlay-nil i (logical u content pos p s) j))
  write_loop-Ended (suc fuel) p (b ∷ z) i s lt file v =
      let p1 = (flush_if_needed u p i s).1 in
      let s1 = (flush_if_needed u p i s).2 in
      let k = copy_size p1 (length (b ∷ z)) in
      Ended-of_step p s (b ∷ z) i (flush_if_needed u p i s).0 p1 s1 _ _ λ ok.
        let r = flush_if_needed-Ready p i s file v ok in
        let bounds = copy_size_bounds p1 (length (b ∷ z)) (r.buffered.within) in
        let fd : (fill p1 (b ∷ z) i).fd ≡ p.fd = fd-fill p1 (b ∷ z) i ∙ r.same_fd in
        (
          near_test p1.n_buffer p1.i_buffer_ofst i (r.near),
          Ended-of_chunk p s (b ∷ z) i k (fill p1 (b ∷ z) i) s1 _ fd bounds.0
              (λ j.
                fill-logical u content pos p1 (b ∷ z) i s1 j (r.buffered) (r.near)
                ∙ overlay-ext i (take k (b ∷ z)) (logical u content pos p1 s1)
                    (logical u content pos p s) j (r.holds j))
              (write_loop-Ended fuel (fill p1 (b ∷ z) i) (drop k (b ∷ z)) (i + k) s1
                (omega (arith, length-drop k (b ∷ z), bounds.2, r.room))
                (subst (λ d. IsFile u d content pos) (sym fd) file)
                (fill-IsBuffered p1 (b ∷ z) i (r.buffered))),
        )

  demo_write_buffered :
      (p : DemoFile) (z_buf : List ℕ) (i_ofst : ℕ) (s : S) (buf : List ℕ)
      → p.a_buffer ≡ some buf
      → demo_write u p z_buf i_ofst s ≡ write_loop u (length z_buf + 1) p z_buf i_ofst s
  unfolding demo_write
  demo_write_buffered p z_buf i_ofst s buf has = ground arith

  -- demoWrite is total and transparent on a file with a buffer: it returns, its assertion never
  -- fails, and where it returns SQLITE_OK the file holds what it held before with the bytes of
  -- `z_buf` written at `i_ofst`, whether they are on the disk or pending; the buffer stays within
  -- its bounds. lseek and write are taken to do what POSIX says where they report success.
  pub demo_write-Ended :
      (p : DemoFile) (z_buf : List ℕ) (i_ofst : ℕ) (s : S) (buf : List ℕ)
      → IsFile u p.fd content pos
      → p.a_buffer ≡ some buf
      → IsBuffered p
      → Ended p s z_buf i_ofst (demo_write u p z_buf i_ofst s)
  demo_write-Ended p z_buf i_ofst s buf file has v =
      subst (Ended p s z_buf i_ofst) (sym (demo_write_buffered p z_buf i_ofst s buf has))
        (write_loop-Ended (length z_buf + 1) p z_buf i_ofst s (omega arith) file v)
