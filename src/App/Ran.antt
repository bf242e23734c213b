-- ===== src/App/Ran.antt =====
-- The statements that optee_examples/tee_sqilte/ta/tee_sqlite.c has SQLite execute.
use tee_sqlite.Prelude.{
  ℕ, ◌≡◌, refl, sym, ap, ◌∙◌, ◌==◌, List, [], ◌∷◌, ◌++◌, some, if◌then◌else◌, arith, Bool-cases,
  inl, inr,
}
use Prim.Native.String.{String}
use tee_sqlite.Codec.Keys.{Db}
use tee_sqlite.App.Steps.{sqlite3_key-steps, exec-steps}
use tee_sqlite.App.{
  Sqlite, Connections, Tee, Flow, stopped, going_on, exec_or_close, test_withot_key, select_again,
  select_and_test, create_and_select, exec, password, create_cars, select_cars,
}

-- A record of the statements that SQLite executed with SQLITE_OK, the last one first.
pub record Remembers {S : Type 0} (q : Sqlite S) (ran : S → List String) : Type 0 where
  pub opens : (path : String) (s : S) → ran (q.open_db path s).2 ≡ ran s
  pub closes : (db : ℕ) (s : S) → ran (q.close_db db s) ≡ ran s
  pub frees : (m : ℕ) (s : S) → ran (q.free_message m s) ≡ ran s
  pub executes :
      (db : ℕ) (sql : String) (s : S)
      → ran (q.exec_sql db sql s).2 ≡ (if (q.exec_sql db sql s).0 == 0 then sql ∷ ran s else ran s)

module _ {S : Type 0} {q : Sqlite S} {ran : S → List String} (laws : Remembers q ran) where
  -- What is behind a call of exec_or_close: the statement where it goes on, nothing where it stops.
  abbrev pub Ends : String → S → Flow S (Unit {0}) → Type 0
  Ends sql s (stopped s') = ran s' ≡ ran s
  Ends sql s (going_on u s') = ran s' ≡ sql ∷ ran s

  pub exec_or_close-Ends : (db : ℕ) (sql : String) (s : S) → Ends sql s (exec_or_close q db sql s)
  unfolding exec_or_close
  exec_or_close-Ends db sql s =
      let m = (q.exec_sql db sql s).1 in
      let s1 = (q.exec_sql db sql s).2 in
      let e = laws.executes db sql s in
      elim (Bool-cases ((q.exec_sql db sql s).0 == 0)) [
        | inl fine ↦ rw (fine) (e ∙ ap (λ b. if b then sql ∷ ran s else ran s) fine)
        | inr failed ↦ rw (failed) (
            laws.closes db (q.free_message m s1)
            ∙ (laws.frees m s1 ∙ (e ∙ ap (λ b. if b then sql ∷ ran s else ran s) failed)))
      ]

  -- What has been executed since stands in front.
  pub record Since (s s' : S) : Type 0 where
    pub later : List String
    pub is_later : ran s' ≡ later ++ ran s

  unfoldable pub flow_state : Flow S (Unit {0}) → S
  flow_state (stopped s) = s
  flow_state (going_on u s) = s

  flow-Since :
      (sql : String) (s : S) (r : Flow S (Unit {0})) → Ends sql s r → Since s (flow_state r)
  unfolding flow_state
  flow-Since sql s (stopped s') e = record { later = []; is_later = e }
  flow-Since sql s (going_on u s') e = record { later = sql ∷ []; is_later = e }

  then-Since : (s s1 s2 : S) → Since s s1 → ran s2 ≡ ran s1 → Since s s2
  then-Since s s1 s2 a b = record { later = a.later; is_later = b ∙ a.is_later }

  append_assoc : (xs ys zs : List String) → (xs ++ ys) ++ zs ≡ xs ++ (ys ++ zs)
  append_assoc [] ys zs = refl
  append_assoc (x ∷ xs) ys zs = ap (λ t. x ∷ t) (append_assoc xs ys zs)

  chain-Since : (s s1 s2 : S) → Since s s1 → Since s1 s2 → Since s s2
  chain-Since s s1 s2 a b = record {
    later = b.later ++ a.later;
    is_later =
        b.is_later
        ∙ (ap (λ l. b.later ++ l) a.is_later ∙ sym (append_assoc b.later a.later (ran s)));
  }

  after_select :
      (db : ℕ) (s : S) (r : Flow S (Unit {0}))
      → Since s (flow_state r)
      → Since s (elim r [ stopped s2 ↦ s2 | going_on u s2 ↦ q.close_db db s2 ])
  unfolding flow_state
  after_select db s (stopped s2) a = a
  after_select db s (going_on u s2) a = then-Since s s2 (q.close_db db s2) a (laws.closes db s2)

  select_again-Since : (db : ℕ) (s : S) → Since s (select_again q db s)
  unfolding select_again
  select_again-Since db s =
      let s0 = q.close_db db s in
      let db' = (q.open_db "/tmp/test1.db" s0).1 in
      let s1 = (q.open_db "/tmp/test1.db" s0).2 in
      let r = exec_or_close q db' select_cars s1 in
      let opened : Since s s1 = record {
        later = [];
        is_later = laws.opens "/tmp/test1.db" s0 ∙ laws.closes db s;
      } in
      chain-Since s s1 _ opened (
        after_select db' s1 r (flow-Since select_cars s1 r (exec_or_close-Ends db' select_cars s1)))

  after_create :
      (db : ℕ) (s : S) (r : Flow S (Unit {0}))
      → Since s (flow_state r)
      → Since s (elim r [ stopped s2 ↦ s2 | going_on u s2 ↦ select_again q db s2 ])
  unfolding flow_state
  after_create db s (stopped s2) a = a
  after_create db s (going_on u s2) a =
      chain-Since s s2 (select_again q db s2) a (select_again-Since db s2)

  test_withot_key-Since : (s : S) → Since s (test_withot_key q s)
  unfolding test_withot_key
  test_withot_key-Since s =
      let db = (q.open_db "/tmp/test1.db" s).1 in
      let s1 = (q.open_db "/tmp/test1.db" s).2 in
      let r = exec_or_close q db create_cars s1 in
      let opened : Since s s1 = record { later = []; is_later = laws.opens "/tmp/test1.db" s } in
      elim (Bool-cases ((q.open_db "/tmp/test1.db" s).0 == 0)) [
        | inl fine ↦ rw (fine) (
            chain-Since s s1 _ opened (
              after_create db s1 r
                (flow-Since create_cars s1 r (exec_or_close-Ends db create_cars s1))))
        | inr failed ↦ rw (failed) (then-Since s s1 _ opened (laws.closes db s1))
      ]

  -- The result 0 of the last part of exec: the statement was executed, and the types are those
  -- expected.
  selected :
      (tee : Tee) (types db : ℕ) (s : S) (r : Flow S (Unit {0}))
      → exec_or_close q db select_cars s ≡ r
      → Ends select_cars s r
      → (select_and_test q tee types db s).0 ≡ 0
      → (l : List String) × (ran (select_and_test q tee types db s).1 ≡ l ++ (select_cars ∷ ran s))
  unfolding select_and_test
  selected tee types db s (stopped s2) run e h = absurd (ground (arith, run))
  selected tee types db s (going_on u s2) run e h =
      let t = test_withot_key-Since (q.close_db db s2) in
      (
        t.later,
        rw (run, select_and_test) (t.is_later ∙ ap (λ l. t.later ++ l) (laws.closes db s2 ∙ e)),
      )

  created :
      (tee : Tee) (types db : ℕ) (s : S) (r : Flow S (Unit {0}))
      → exec_or_close q db create_cars s ≡ r
      → Ends create_cars s r
      → (create_and_select q tee types db s).0 ≡ 0
      → (l : List String) × (ran (create_and_select q tee types db s).1
          ≡ l ++ (select_cars ∷ (create_cars ∷ ran s)))
  unfolding create_and_select
  created tee types db s (stopped s2) run e h = absurd (ground (arith, run))
  created tee types db s (going_on u s2) run e h =
      let t =
        selected tee types db s2 (exec_or_close q db select_cars s2) refl
          (exec_or_close-Ends db select_cars s2) (ground (arith, run)) in
      (t.0, rw (run, create_and_select) (t.1 ∙ ap (λ l. t.0 ++ (select_cars ∷ l)) e))

-- Where exec returns TEE_SUCCESS, SQLite has executed the creation of the table and then the select on
-- it, with SQLITE_OK, and other statements at most after these.
pub exec-ran :
    {S : Type 0} (q : Sqlite S) (c : Connections S) (behind : List ℕ) (ran : S → List String)
    (tee : Tee) (types : ℕ) (s s' : S)
    → Remembers q ran
    → ((db : ℕ) (ds : List Db) (s : S) → ran (c.with_dbs db ds s) ≡ ran s)
    → exec q c behind tee types s ≡ some (0, s')
    → (l : List String) × (ran s' ≡ l ++ (select_cars ∷ (create_cars ∷ ran s)))
exec-ran {S} q c behind ran tee types s s' laws keys h =
    let db = (q.open_db "/tmp/test.db" s).1 in
    let s1 = (q.open_db "/tmp/test.db" s).2 in
    let (s2, keyed, it) = exec-steps q c behind tee types s (0, s') h in
    let (ds, set) = sqlite3_key-steps q c behind db (password behind) 6 s1 s2 keyed in
    let before : ran s2 ≡ ran s =
      ap ran (sym set) ∙ (keys db ds s1 ∙ laws.opens "/tmp/test.db" s) in
    elim (Bool-cases ((q.open_db "/tmp/test.db" s).0 == 0)) [
      | inl fine ↦
          let run : create_and_select q tee types db s2 ≡ (0, s') = ground (arith, fine, it) in
          let t =
            created laws tee types db s2 (exec_or_close q db create_cars s2) refl
              (exec_or_close-Ends laws db create_cars s2) (ap (λ (r : ℕ × S). r.0) run) in
          (
            t.0,
            ap (λ (r : ℕ × S). ran r.1) (sym run)
                ∙ (t.1 ∙ ap (λ l. t.0 ++ (select_cars ∷ (create_cars ∷ l))) before),
          )
      | inr failed ↦ absurd (ground (arith, failed, ap (λ (r : ℕ × S). r.0) it))
    ]
