-- ===== src/App/Steps.antt =====
-- exec and sqlite3_key of optee_examples/tee_sqilte/ta/tee_sqlite.c, where they return.
use tee_sqlite.Prelude.{
  ℕ, ◌≡◌, refl, sym, ◌∙◌, ◌==◌, not, List, some, some_inj, if◌then◌else◌, arith, Option-cases, inl,
  inr,
}
use tee_sqlite.Codec.Keys.{Db, sqlite3_key_v2}
use tee_sqlite.App.{
  Sqlite, Connections, Tee, create_and_select, sqlite3_key, exec, main_name, password,
}

module _ {S : Type 0} (q : Sqlite S) (c : Connections S) (behind : List ℕ) where
  pub sqlite3_key-steps :
      (db : ℕ) (key : List ℕ) (n_key : ℕ) (s s' : S)
      → sqlite3_key q c behind db key n_key s ≡ some s'
      → (ds : List Db) × (c.with_dbs db ds s ≡ s')
  unfolding sqlite3_key
  sqlite3_key-steps db key n_key s s' h =
      elim (Option-cases
        (sqlite3_key_v2 (c.fresh s) (c.dbs db s) (some main_name) (some key) n_key)) [
          | inl refused ↦ absurd (ground (arith, refused))
          | inr there ↦ (there.0, ground (arith, there.1))
        ]

  module _ (tee : Tee) (types : ℕ) (s : S) where
    -- exec behind sqlite3_key, which leaves `s2`.
    abbrev pub rest_of_exec : S → ℕ × S
    rest_of_exec s2 =
        if not ((q.open_db "/tmp/test.db" s).0 == 0)
        then (1, q.close_db (q.open_db "/tmp/test.db" s).1 s2)
        else create_and_select q tee types (q.open_db "/tmp/test.db" s).1 s2

    exec_keyed :
        (s2 : S)
        → sqlite3_key q c behind
            (q.open_db "/tmp/test.db" s).1
            (password behind)
            6
            (q.open_db "/tmp/test.db" s).2
          ≡ some s2
        → exec q c behind tee types s ≡ some (rest_of_exec s2)
    unfolding exec
    exec_keyed s2 run = rw (run) refl

    pub exec-steps :
        (r : ℕ × S)
        → exec q c behind tee types s ≡ some r
        → (s2 : S) × (sqlite3_key q c behind
              (q.open_db "/tmp/test.db" s).1
              (password behind)
              6
              (q.open_db "/tmp/test.db" s).2
            ≡ some s2)
          × (rest_of_exec s2 ≡ r)
    unfolding exec
    exec-steps r h =
        elim (Option-cases (
          sqlite3_key q c behind (q.open_db "/tmp/test.db" s).1 (password behind) 6
            (q.open_db "/tmp/test.db" s).2)) [
              | inl null ↦ absurd (ground (arith, null))
              | inr keyed ↦ (keyed.0, keyed.1, some_inj (sym (exec_keyed keyed.0 keyed.1) ∙ h))
            ]
