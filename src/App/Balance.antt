-- ===== src/App/Balance.antt =====
-- Connections and messages of SQLite in optee_examples/tee_sqilte/ta/tee_sqlite.c.
use tee_sqlite.Prelude.{
  one, ℕ, ◌≤◌, ◌≡◌, refl, ◌∙◌, ◌==◌, List, some, arith, Bool-cases, inl, inr, subst,
}
use Prim.Native.String.{String}
use tee_sqlite.Codec.Keys.{Db}
use tee_sqlite.App.Steps.{sqlite3_key-steps, rest_of_exec, exec-steps}
use tee_sqlite.App.{
  Sqlite, Connections, Tee, Flow, stopped, going_on, exec_or_close, test_withot_key, sqlite3_key,
  exec, password, select_again, select_and_test, create_and_select, create_cars, select_cars,
}
use tee_sqlite.App.Counts.{
  Counts, Without, Ends, close-Without, exec_or_close-Ends, open-Without, opened_there,
  after-Without, still_there, close_after,
}

module _ {S : Type 0} {q : Sqlite S} {live messages : S → ℕ} (laws : Counts q live messages) where
  closed_after :
      (db : ℕ) (s : S) (r : Flow S (Unit {0}))
      → one db ≤ live s
      → Ends laws db s r
      → Without laws (one db) s (elim r [ stopped s2 ↦ s2 | going_on u s2 ↦ q.close_db db s2 ])
  closed_after db s (stopped s2) h e = e
  closed_after db s (going_on u s2) h e = close_after laws db s s2 h e

  select_again-Without :
      (db : ℕ) (s : S) → one db ≤ live s → Without laws (one db) s (select_again q db s)
  unfolding select_again
  select_again-Without db s h =
      let path : String = "/tmp/test1.db" in
      let s0 = q.close_db db s in
      let db' = (q.open_db path s0).1 in
      let s1 = (q.open_db path s0).2 in
      let e = exec_or_close-Ends laws db' select_cars s1 (opened_there laws path s0) in
      let w =
        open-Without laws path s0 _ (
          closed_after db' s1 (exec_or_close q db' select_cars s1) (opened_there laws path s0) e) in
      let c = close-Without laws db s h in
      record {
        connections = omega (arith, w.connections, c.connections);
        silent = w.silent ∙ c.silent;
      }

  created :
      (db : ℕ) (s : S) (r : Flow S (Unit {0}))
      → one db ≤ live s
      → Ends laws db s r
      → Without laws (one db) s (elim r [ stopped s2 ↦ s2 | going_on u s2 ↦ select_again q db s2 ])
  created db s (stopped s2) h e = e
  created db s (going_on u s2) h e =
      after-Without laws db s s2 (select_again q db s2) e
        (select_again-Without db s2 (still_there laws db s s2 h e))

  test_withot_key-Without : (s : S) → Without laws 0 s (test_withot_key q s)
  unfolding test_withot_key
  test_withot_key-Without s =
      let path : String = "/tmp/test1.db" in
      let db = (q.open_db path s).1 in
      let s1 = (q.open_db path s).2 in
      let there = opened_there laws path s in
      elim (Bool-cases ((q.open_db path s).0 == 0)) [
        | inl fine ↦ rw (fine) (
            open-Without laws path s _ (
              created db s1 (exec_or_close q db create_cars s1) there
                (exec_or_close-Ends laws db create_cars s1 there)))
        | inr failed ↦ rw (failed) (open-Without laws path s _ (close-Without laws db s1 there))
      ]

  selected :
      (tee : Tee) (types db : ℕ) (s : S) (r : Flow S (Unit {0}))
      → exec_or_close q db select_cars s ≡ r
      → one db ≤ live s
      → Ends laws db s r
      → Without laws (one db) s (select_and_test q tee types db s).1
  unfolding select_and_test
  selected tee types db s (stopped s2) run h e = rw (run, select_and_test) e
  selected tee types db s (going_on u s2) run h e =
      let c = close_after laws db s s2 h e in
      let w = test_withot_key-Without (q.close_db db s2) in
      rw (run, select_and_test)
        (record {
          connections = omega (arith, c.connections, w.connections);
          silent = w.silent ∙ c.silent;
        })

  created_and_selected :
      (tee : Tee) (types db : ℕ) (s : S) (r : Flow S (Unit {0}))
      → exec_or_close q db create_cars s ≡ r
      → one db ≤ live s
      → Ends laws db s r
      → Without laws (one db) s (create_and_select q tee types db s).1
  unfolding create_and_select
  created_and_selected tee types db s (stopped s2) run h e = rw (run, create_and_select) e
  created_and_selected tee types db s (going_on u s2) run h e =
      let there = still_there laws db s s2 h e in
      rw (run, create_and_select)
        (after-Without laws db s s2 _ e (
          selected tee types db s2 (exec_or_close q db select_cars s2) refl there
            (exec_or_close-Ends laws db select_cars s2 there)))

-- The key of a connection neither opens nor closes any, and makes no message.
pub record KeysAreSilent {S : Type 0} (c : Connections S) (live messages : S → ℕ) : Type 0 where
  pub connections : (db : ℕ) (ds : List Db) (s : S) → live (c.with_dbs db ds s) ≡ live s
  pub silent : (db : ℕ) (ds : List Db) (s : S) → messages (c.with_dbs db ds s) ≡ messages s

sqlite3_key-Without :
    {S : Type 0} (q : Sqlite S) (c : Connections S) (behind : List ℕ) (live messages : S → ℕ)
    (laws : Counts q live messages) (db : ℕ) (key : List ℕ) (n_key : ℕ) (s s' : S)
    → KeysAreSilent c live messages
    → sqlite3_key q c behind db key n_key s ≡ some s'
    → Without laws 0 s s'
unfolding sqlite3_key
sqlite3_key-Without q c behind live messages laws db key n_key s s' keys h =
    let (ds, it) = sqlite3_key-steps q c behind db key n_key s s' h in
    subst (λ z. Without laws 0 s z) it
      (record {
        connections = omega (arith, keys.connections db ds s);
        silent = keys.silent db ds s;
      })

-- exec closes each connection that it opened and frees each message, on each of its paths: where it
-- returns, there are as many of both as before. SQLite is taken to count them as documented.
pub exec-Without :
    {S : Type 0} (q : Sqlite S) (c : Connections S) (behind : List ℕ) (live messages : S → ℕ)
    (laws : Counts q live messages) (tee : Tee) (types : ℕ) (s : S) {r : ℕ × S}
    → KeysAreSilent c live messages
    → exec q c behind tee types s ≡ some r
    → Without laws 0 s r.1
unfolding exec
exec-Without {S} q c behind live messages laws tee types s {r} keys h =
    let path : String = "/tmp/test.db" in
    let db = (q.open_db path s).1 in
    let s1 = (q.open_db path s).2 in
    let there = opened_there laws path s in
    let (s2, keyed, it) = exec-steps q c behind tee types s r h in
    let w =
      sqlite3_key-Without q c behind live messages laws db (password behind) 6 s1 s2 keys keyed in
    let still = still_there laws db s1 s2 there w in
    let end : Without laws (one db) s2 (rest_of_exec q c behind tee types s s2).1 =
      elim (Bool-cases ((q.open_db path s).0 == 0)) [
        | inl fine ↦ rw (fine) (
            created_and_selected laws tee types db s2 (exec_or_close q db create_cars s2) refl still
              (exec_or_close-Ends laws db create_cars s2 still))
        | inr failed ↦ rw (failed) (close-Without laws db s2 still)
      ] in
    subst (λ (z : ℕ × S). Without laws 0 s z.1) it
      (open-Without laws path s _ (after-Without laws db s1 s2 _ w end))
