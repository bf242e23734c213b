-- ===== src/App/Counts.antt =====
-- Connections and messages of SQLite behind the calls of optee_examples/tee_sqilte/ta/tee_sqlite.c.
use tee_sqlite.Prelude.{ℕ, ◌+◌, ◌≤◌, ◌≡◌, ◌∙◌, ◌==◌, arith, one, Bool-cases, inl, inr}
use Prim.Native.String.{String}
use tee_sqlite.App.{Sqlite, Flow, stopped, going_on, exec_or_close}

-- What SQLite documents of the number of open connections and of messages to free.
pub record Counts {S : Type 0} (q : Sqlite S) (live messages : S → ℕ) : Type 0 where
  pub opens :
      (path : String) (s : S) → live (q.open_db path s).2 ≡ live s + one (q.open_db path s).1
  pub opens_silent : (path : String) (s : S) → messages (q.open_db path s).2 ≡ messages s
  pub closes : (db : ℕ) (s : S) → one db ≤ live s → live (q.close_db db s) + one db ≡ live s
  pub closes_silent : (db : ℕ) (s : S) → messages (q.close_db db s) ≡ messages s
  pub executes : (db : ℕ) (sql : String) (s : S) → live (q.exec_sql db sql s).2 ≡ live s
  pub says :
      (db : ℕ) (sql : String) (s : S)
      → messages (q.exec_sql db sql s).2 ≡ messages s + one (q.exec_sql db sql s).1
  pub silent :
      (db : ℕ) (sql : String) (s : S) → (q.exec_sql db sql s).0 ≡ 0 → (q.exec_sql db sql s).1 ≡ 0
  pub frees :
      (m : ℕ) (s : S) → one m ≤ messages s → messages (q.free_message m s) + one m ≡ messages s
  pub frees_only : (m : ℕ) (s : S) → live (q.free_message m s) ≡ live s

module _ {S : Type 0} {q : Sqlite S} {live messages : S → ℕ} (laws : Counts q live messages) where
  -- `opened` connections fewer than in `s`, and as many messages.
  pub record Without (opened : ℕ) (s s' : S) : Type 0 where
    pub connections : live s' + opened ≡ live s
    pub silent : messages s' ≡ messages s

  -- How exec_or_close ends: without the connection, or with it.
  abbrev pub Ends : ℕ → S → Flow S (Unit {0}) → Type 0
  Ends db s (stopped s') = Without (one db) s s'
  Ends db s (going_on u s') = Without 0 s s'

  then-Without : (m k : ℕ) (s s1 s2 : S) → Without m s s1 → Without k s1 s2 → Without (m + k) s s2
  then-Without m k s s1 s2 a b = record {
    connections = omega (arith, a.connections, b.connections);
    silent = b.silent ∙ a.silent;
  }

  pub close-Without : (db : ℕ) (s : S) → one db ≤ live s → Without (one db) s (q.close_db db s)
  close-Without db s h = record {
    connections = laws.closes db s h;
    silent = laws.closes_silent db s;
  }

  pub exec_or_close-Ends :
      (db : ℕ) (sql : String) (s : S) → one db ≤ live s → Ends db s (exec_or_close q db sql s)
  unfolding exec_or_close
  exec_or_close-Ends db sql s h =
      let m = (q.exec_sql db sql s).1 in
      let s1 = (q.exec_sql db sql s).2 in
      let s2 = q.free_message m s1 in
      elim (Bool-cases ((q.exec_sql db sql s).0 == 0)) [
        | inl fine ↦
            let quiet : m ≡ 0 = laws.silent db sql s (ground arith) in
            rw (fine) (record {
              connections = omega (arith, laws.executes db sql s);
              silent = ground (arith, laws.says db sql s, quiet);
            })
        | inr failed ↦
            let said = laws.says db sql s in
            let freed = laws.frees m s1 (omega (arith, said)) in
            let there = laws.executes db sql s in
            let kept = laws.frees_only m s1 in
            rw (failed) (record {
              connections =
                  omega (arith, laws.closes db s2 (omega (arith, there, kept, h)), there, kept);
              silent = omega (arith, laws.closes_silent db s2, said, freed);
            })
      ]

  -- An open and then what ends without the connection.
  pub open-Without :
      (path : String) (s s' : S)
      → Without (one (q.open_db path s).1) (q.open_db path s).2 s'
      → Without 0 s s'
  open-Without path s s' w = record {
    connections = omega (arith, w.connections, laws.opens path s);
    silent = w.silent ∙ laws.opens_silent path s;
  }

  pub opened_there : (path : String) (s : S) → one (q.open_db path s).1 ≤ live (q.open_db path s).2
  opened_there path s = omega (arith, laws.opens path s)

  -- A call that goes on, and then what ends without the connection.
  pub after-Without :
      (db : ℕ) (s s1 s2 : S) → Without 0 s s1 → Without (one db) s1 s2 → Without (one db) s s2
  after-Without db s s1 s2 a b = record {
    connections = omega (arith, a.connections, b.connections);
    silent = b.silent ∙ a.silent;
  }

  pub still_there : (db : ℕ) (s s1 : S) → one db ≤ live s → Without 0 s s1 → one db ≤ live s1
  still_there db s s1 h w = omega (arith, w.connections)

  pub close_after :
      (db : ℕ) (s s1 : S) → one db ≤ live s → Without 0 s s1 → Without (one db) s (q.close_db db s1)
  close_after db s s1 h w =
      after-Without db s s1 (q.close_db db s1) w (close-Without db s1 (still_there db s s1 h w))
