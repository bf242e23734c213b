-- ===== src/TaVfs/Steps.antt =====
-- demoWrite, demoRead and demoSync of optee_examples/tee_sqilte/ta/tee_vfs.c between other calls on the
-- same file.
use tee_sqlite.Prelude.{
  ℕ, zero, suc, ◌+◌, ◌^◌, ◌<◌, ◌≡◌, inl, inr, refl, sym, ap, ap₂, subst, ◌∙◌, List, [], ◌∷◌, Option,
  none, some, arith, length, take, get_elem?, read_at, low32, some_inj,
}
use tee_sqlite.TaVfs.{
  Utee, DemoFile, bytes_of, flush_buffer, direct_write, read_result, demo_read, demo_sync,
}
use tee_sqlite.TaVfs.Write.{returned, demo_write}
use tee_sqlite.TaVfs.Overlay.{overlay, overlay-nil, overlay-ext}
use tee_sqlite.TaVfs.Buffer.{IsBuffered, buffer_size-pos}
use tee_sqlite.TaVfs.Contents.{IsFile, logical, direct_write-content, flush_buffer-content}
use tee_sqlite.TaVfs.Rounds.{demo_write-Ended}
use tee_sqlite.TaVfs.Read.{demo_read-logical}
use tee_sqlite.TaVfs.Durable.{demo_sync-durable}
use tee_sqlite.TaVfs.Calls.{
  IsPlain, IsShaped, AfterWrite, AfterRead, AfterSync, IsOpen, after_returned, after_ended,
  after_read, after_sync, length-read_result, demo_read-done, demo_sync-done,
}

module _ {S : Type 0} (u : Utee S) (content durable : S → ℕ → ℕ) (pos : S → ℕ) where
  emptied_shape : (p : DemoFile) → IsShaped p → IsShaped (record p { n_buffer = 0 })
  emptied_shape p (inl v) = inl (v.0, refl)
  emptied_shape p (inr v) = inr (record { whole = v.whole; within = omega arith })

  -- Behind a flush, the file is what the disk holds.
  emptied-IsOpen :
      (fd : ℕ) (p p1 : DemoFile) (s s1 : S) (f : ℕ → ℕ)
      → IsOpen u content pos fd p s f
      → p1 ≡ record p { n_buffer = 0 }
      → ((j : ℕ) → content s1 j ≡ f j)
      → IsOpen u content pos fd p1 s1 f
  emptied-IsOpen fd p p1 s s1 f v e held =
      subst (λ q. IsOpen u content pos fd q s1 f) (sym e)
        (record {
          same_fd = v.same_fd;
          shaped = emptied_shape p v.shaped;
          holds = λ j. overlay-nil p.i_buffer_ofst (content s1) j ∙ held j;
        })

  has_bytes :
      (b : Option (List ℕ))
      → 0 < length {A = ℕ} (elim b [ none ↦ [] | some buf ↦ buf ])
      → (buf : List ℕ) × (b ≡ some buf)
  has_bytes none pos = absurd (omega arith)
  has_bytes (some buf) pos = (buf, refl)

  has_buffer : (p : DemoFile) → IsBuffered p → (buf : List ℕ) × (p.a_buffer ≡ some buf)
  has_buffer p v = has_bytes p.a_buffer (omega (arith, v.whole, buffer_size-pos))

  demo_write_unbuffered :
      (p : DemoFile) (z : List ℕ) (i : ℕ) (s : S)
      → p.a_buffer ≡ none
      → demo_write u p z i s ≡ returned (direct_write u p z i s).0 p (direct_write u p z i s).1
  unfolding demo_write
  demo_write_unbuffered p z i s e = ground arith

  pub none_pending :
      (p : DemoFile) (s : S) (j : ℕ) → p.n_buffer ≡ 0 → logical u content pos p s j ≡ content s j
  none_pending p s j e =
      ap (λ m. overlay p.i_buffer_ofst (take m (bytes_of p)) (content s) j) e
      ∙ overlay-nil p.i_buffer_ofst (content s) j

  list_of_bytes :
      (bs : List ℕ) (f : ℕ → ℕ) (o n : ℕ)
      → length bs ≡ n
      → ((k : ℕ) → k < n → get_elem? bs k ≡ some (f (o + k)))
      → bs ≡ read_at f o n
  list_of_bytes [] f o zero e h = refl
  list_of_bytes [] f o (suc n) e h = absurd (omega arith)
  list_of_bytes (b ∷ bs) f o zero e h = absurd (omega arith)
  list_of_bytes (b ∷ bs) f o (suc n) e h =
      ap₂ (λ c cs. c ∷ cs) (some_inj (h 0 (omega arith)) ∙ ap f (omega arith))
        (list_of_bytes bs f (suc o) n (omega arith)
          (λ k lt. h (suc k) (omega arith) ∙ ap (λ j. some (f j)) (omega arith)))

  module _ (fd : ℕ) (plain : IsPlain u fd content durable pos) where
    file : (p : DemoFile) → p.fd ≡ fd → IsFile u p.fd content pos
    file p e = subst (λ d. IsFile u d content pos) (sym e) plain.readable.file

    pub write_step :
        (p : DemoFile) (s : S) (f : ℕ → ℕ) (z : List ℕ) (i : ℕ) (later : DemoFile → S → Type 0)
        → IsOpen u content pos fd p s f
        → ((p' : DemoFile) (s' : S) → IsOpen u content pos fd p' s' (overlay i z f) → later p' s')
        → AfterWrite (demo_write u p z i s) later
    write_step p s f z i later v k = elim v.shaped [
      | inl bare ↦
          let s1 = (direct_write u p z i s).1 in
          rw (demo_write_unbuffered p z i s bare.0) (
            after_returned (direct_write u p z i s).0 p s1 later λ ok. k p s1 (record {
              same_fd = v.same_fd;
              shaped = inl bare;
              holds = λ j.
                  none_pending p s1 j bare.1
                  ∙ direct_write-content u content pos p z i s j (file p v.same_fd) ok
                  ∙ overlay-ext i z (content s) f j (sym (none_pending p s j bare.1) ∙ v.holds j);
            }))
      | inr whole ↦
          let (buf, has) = has_buffer p whole in
          after_ended u content pos p s z i _ later
            (demo_write-Ended u content pos p z i s buf (file p v.same_fd) has whole)
            (λ p' s' whole' same now. k p' s' (record {
              same_fd = same ∙ v.same_fd;
              shaped = inr whole';
              holds = λ j. now j ∙ overlay-ext i z (logical u content pos p s) f j (v.holds j);
            }))
    ]

    pub read_step :
        (p : DemoFile) (s : S) (f : ℕ → ℕ) (n i : ℕ) (later : DemoFile → S → Type 0)
        → n < 2 ^ 31
        → IsOpen u content pos fd p s f
        → ((p' : DemoFile) (s' : S) → IsOpen u content pos fd p' s' f → later p' s')
        → AfterRead n i f
            (demo_read u p n i s).0
            (demo_read u p n i s).1
            (later (demo_read u p n i s).2 (demo_read u p n i s).3)
    read_step p s f n i later small v k =
        let r = demo_read u p n i s in
        let s1 = (flush_buffer u p s).2 in
        let s2 = (u.lseek p.fd i s1).1 in
        let reads_it = subst (λ d. IsPlain u d content durable pos) (sym v.same_fd) plain in
        after_read n i f r.0 r.1 _ λ fine.
          let done = demo_read-done u content pos p n i s fine in
          let got = u.read p.fd n s2 in
          let bs = (read_result n (low32 got.0) got.1).1 in
          let flushed : (j : ℕ) → content s1 j ≡ f j = λ j.
            (flush_buffer-content u content pos p s j (file p v.same_fd) done.0).0 ∙ v.holds j in
          (
            done.1
                ∙ ap some (
                    list_of_bytes bs f i n
                      (length-read_result n (low32 got.0) got.1
                        (reads_it.readable.read_length n s2 small))
                      (λ j lt.
                        demo_read-logical u content pos p n i j s bs reads_it.readable small lt fine
                          done.1
                        ∙ ap some (v.holds (i + j)))),
            k r.2 r.3 (
                emptied-IsOpen fd p r.2 s r.3 f v
                  (done.2 ∙ (flush_buffer-content u content pos p s 0 (file p v.same_fd) done.0).1)
                  (λ j.
                    ap (λ t. content t j) done.3
                    ∙ reads_it.read_content n s2 j small
                    ∙ reads_it.readable.file.lseek_content i s1 j
                    ∙ flushed j)),
          )

    pub sync_step :
        (p : DemoFile) (s : S) (f : ℕ → ℕ) (later : DemoFile → S → Type 0)
        → IsOpen u content pos fd p s f
        → ((p' : DemoFile) (s' : S) → IsOpen u content pos fd p' s' f → later p' s')
        → AfterSync durable f
            (demo_sync u p s).0
            (demo_sync u p s).2
            (later (demo_sync u p s).1 (demo_sync u p s).2)
    sync_step p s f later v k =
        let r = demo_sync u p s in
        let s1 = (flush_buffer u p s).2 in
        let syncs_it = subst (λ d. IsPlain u d content durable pos) (sym v.same_fd) plain in
        after_sync durable f r.0 r.2 _ λ ok.
          let done = demo_sync-done u content pos p s ok in
          let flushed =
            λ (j : ℕ). flush_buffer-content u content pos p s j (file p v.same_fd) done.0 in
          (
            λ j.
                (demo_sync-durable u content durable pos (λ t. 0) p s j syncs_it.synced ok).0
                ∙ v.holds j,
            k r.1 r.2 (
                emptied-IsOpen fd p r.1 s r.2 f v (done.1 ∙ (flushed 0).1) (λ j.
                  ap (λ t. content t j) done.2
                  ∙ syncs_it.fsync_content s1 j
                  ∙ (flushed j).0
                  ∙ v.holds j)),
          )
