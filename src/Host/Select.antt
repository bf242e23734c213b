-- ===== src/Host/Select.antt =====
-- The loop of selects in main of optee_examples/tee_sqilte/host/main.c, on two views of the state.
use tee_sqlite.Prelude.{
  ℕ, zero, suc, ◌≡◌, refl, sym, ap, ◌∙◌, ◌==◌, List, ◌∷◌, ◌++◌, arith, Bool-cases, inl, inr,
  replicate,
}
use Prim.Native.String.{String}
use tee_sqlite.App.{Sqlite, Flow, stopped, going_on, exec_or_close}
use tee_sqlite.App.Ran.{Remembers, Ends, exec_or_close-Ends}
use tee_sqlite.Host.{select_loop, select_all}

-- SQLite of the normal world does nothing to a view of the state.
pub record IsApart {S : Type 0} (q : Sqlite S) (view : S → List String) : Type 0 where
  pub opens : (path : String) (s : S) → view (q.open_db path s).2 ≡ view s
  pub closes : (db : ℕ) (s : S) → view (q.close_db db s) ≡ view s
  pub frees : (m : ℕ) (s : S) → view (q.free_message m s) ≡ view s
  pub executes : (db : ℕ) (sql : String) (s : S) → view (q.exec_sql db sql s).2 ≡ view s

replicate-append :
    (n : ℕ) (a : String) (l : List String) → replicate n a ++ (a ∷ l) ≡ a ∷ (replicate n a ++ l)
replicate-append zero a l = refl
replicate-append (suc n) a l = ap (λ t. a ∷ t) (replicate-append n a l)

going_on-inj :
    {S : Type 0} (s s' : S) → ◌≡◌ {A = Flow S (Unit {0})} (going_on tt s) (going_on tt s') → s ≡ s'
going_on-inj s s' h = cc

module _ {S : Type 0} {q : Sqlite S} {ran : S → List String} (laws : Remembers q ran) (db : ℕ) where
  -- A round that stops does not go on, and one that goes on leads to the others.
  loop_step :
      (n : ℕ) (s s' : S) (r : Flow S (Unit {0}))
      → exec_or_close q db select_all s ≡ r
      → Ends laws select_all s r
      → select_loop q db (suc n) s ≡ going_on tt s'
      → (s1 : S) × (ran s1 ≡ select_all ∷ ran s) × (select_loop q db n s1 ≡ going_on tt s')
  unfolding select_loop
  loop_step n s s' (stopped s1) run e h = absurd (ground (arith, run))
  loop_step n s s' (going_on u s1) run e h = (s1, e, ground (arith, run))

  pub select_loop-ran :
      (n : ℕ) (s s' : S)
      → select_loop q db n s ≡ going_on tt s'
      → ran s' ≡ replicate n select_all ++ ran s
  unfolding select_loop
  select_loop-ran zero s s' h = ap ran (sym (going_on-inj s s' h))
  select_loop-ran (suc n) s s' h =
      let (s1, e, rest) =
        loop_step n s s' (exec_or_close q db select_all s) refl
          (exec_or_close-Ends laws db select_all s) h in
      select_loop-ran n s1 s' rest
      ∙ (ap (λ l. replicate n select_all ++ l) e ∙ replicate-append n select_all (ran s))

-- The state at the end.
abbrev pub flow_state : {S : Type 0} → Flow S (Unit {0}) → S
flow_state (stopped s) = s
flow_state (going_on u s) = s

module _ {S : Type 0} {q : Sqlite S} {view : S → List String} (apart : IsApart q view)
    (db : ℕ) where
  pub exec_or_close-apart :
      (sql : String) (s : S) → view (flow_state (exec_or_close q db sql s)) ≡ view s
  unfolding exec_or_close
  exec_or_close-apart sql s =
      let m = (q.exec_sql db sql s).1 in
      let s1 = (q.exec_sql db sql s).2 in
      let e = apart.executes db sql s in
      elim (Bool-cases ((q.exec_sql db sql s).0 == 0)) [
        | inl fine ↦ rw (fine) e
        | inr failed ↦ rw (failed) (apart.closes db (q.free_message m s1) ∙ (apart.frees m s1 ∙ e))
      ]

  loop_step-apart :
      (n : ℕ) (s : S) (r : Flow S (Unit {0}))
      → exec_or_close q db select_all s ≡ r
      → ((s1 : S) → view (flow_state (select_loop q db n s1)) ≡ view s1)
      → view (flow_state r) ≡ view s
      → view (flow_state (select_loop q db (suc n) s)) ≡ view s
  unfolding select_loop
  loop_step-apart n s (stopped s1) run rest e = rw (run, select_loop) e
  loop_step-apart n s (going_on u s1) run rest e = rw (run, select_loop) (rest s1 ∙ e)

  pub select_loop-apart : (n : ℕ) (s : S) → view (flow_state (select_loop q db n s)) ≡ view s
  unfolding select_loop
  select_loop-apart zero s = refl
  select_loop-apart (suc n) s =
      loop_step-apart n s (exec_or_close q db select_all s) refl (select_loop-apart n)
        (exec_or_close-apart select_all s)
