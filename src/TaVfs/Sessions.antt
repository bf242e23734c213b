-- ===== src/TaVfs/Sessions.antt =====
-- Calls of SQLite one after the other on a file of optee_examples/tee_sqilte/ta/tee_vfs.c, with or
-- without a write buffer.
use tee_sqlite.Prelude.{ℕ, ◌^◌, ◌<◌, ◌≡◌, List, [], ◌∷◌}
use tee_sqlite.TaVfs.{Utee, DemoFile, demo_read, demo_sync}
use tee_sqlite.TaVfs.Write.{demo_write}
use tee_sqlite.TaVfs.Overlay.{overlay}
use tee_sqlite.TaVfs.Contents.{logical}
use tee_sqlite.TaVfs.Calls.{IsPlain, AfterWrite, AfterRead, AfterSync, IsOpen}
use tee_sqlite.TaVfs.Steps.{write_step, read_step, sync_step}

-- A call of demoWrite, with the bytes and the offset; of demoRead, with the number of bytes and the
-- offset; or of demoSync.
pub data FileCall : Type 0 where
  writes : List ℕ → ℕ → FileCall
  reads : ℕ → ℕ → FileCall
  syncs : FileCall

-- Reads ask for fewer than 2 ^ 31 bytes.
abbrev pub AllSmall : List FileCall → Type 0
AllSmall [] = Unit {0}
AllSmall (writes z i ∷ calls) = AllSmall calls
AllSmall (reads n i ∷ calls) = (n < 2 ^ 31) × AllSmall calls
AllSmall (syncs ∷ calls) = AllSmall calls

module _ {S : Type 0} (u : Utee S) (content durable : S → ℕ → ℕ) (pos : S → ℕ) where
  -- Up to the first call that fails, the calls behave as on an array of bytes `f`.
  abbrev pub Behaves : List FileCall → DemoFile → S → (ℕ → ℕ) → Type 0
  Behaves [] p s f = (j : ℕ) → logical u content pos p s j ≡ f j
  Behaves (writes z i ∷ calls) p s f =
      AfterWrite (demo_write u p z i s) (λ p' s'. Behaves calls p' s' (overlay i z f))
  Behaves (reads n i ∷ calls) p s f =
      let r = demo_read u p n i s in AfterRead n i f r.0 r.1 (Behaves calls r.2 r.3 f)
  Behaves (syncs ∷ calls) p s f =
      let r = demo_sync u p s in AfterSync durable f r.0 r.2 (Behaves calls r.1 r.2 f)

  module _ (fd : ℕ) (plain : IsPlain u fd content durable pos) where
    -- Where the calls below do what POSIX says, any calls on a file that holds `f`, with a whole
    -- write buffer or without one, behave as on the array `f`.
    pub Behaves-IsOpen :
        (calls : List FileCall) (p : DemoFile) (s : S) (f : ℕ → ℕ)
        → AllSmall calls
        → IsOpen u content pos fd p s f
        → Behaves calls p s f
    Behaves-IsOpen [] p s f small v = v.holds
    Behaves-IsOpen (writes z i ∷ calls) p s f small v =
        write_step u content durable pos fd plain p s f z i _ v
          (λ p' s' v'. Behaves-IsOpen calls p' s' (overlay i z f) small v')
    Behaves-IsOpen (reads n i ∷ calls) p s f small v =
        read_step u content durable pos fd plain p s f n i (λ p' s'. Behaves calls p' s' f) small.0
          v (λ p' s' v'. Behaves-IsOpen calls p' s' f small.1 v')
    Behaves-IsOpen (syncs ∷ calls) p s f small v =
        sync_step u content durable pos fd plain p s f (λ p' s'. Behaves calls p' s' f) v
          (λ p' s' v'. Behaves-IsOpen calls p' s' f small v')
