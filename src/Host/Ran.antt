-- ===== src/Host/Ran.antt =====
-- The statements that main of optee_examples/tee_sqilte/host/main.c has SQLite execute, in both worlds.
use tee_sqlite.Prelude.{
  ℕ, ◌≡◌, ◌≢◌, refl, sym, ap, subst, ◌∙◌, ◌==◌, true, List, ◌∷◌, ◌++◌, none, some, arith,
  Bool-cases, Option-cases, inl, inr, replicate,
}
use Prim.Native.String.{String}
use tee_sqlite.Codec.Keys.{Db}
use tee_sqlite.App.{
  Sqlite, Connections, Tee, Flow, stopped, going_on, exec_or_close, exec_command, exec,
  ta_invoke_command_entry_point, create_cars, select_cars,
}
use tee_sqlite.App.Ran.{Remembers, Ends, exec_or_close-Ends, exec-ran}
use tee_sqlite.Host.{
  Teec, returned, select_loop, run_in_tee, select_and_run, main, rounds, create_empty_cars,
  select_all,
}
use tee_sqlite.Host.Select.{
  IsApart, flow_state, select_loop-ran, exec_or_close-apart, select_loop-apart,
}

-- The calls of the client API but TEEC_InvokeCommand do nothing to a view of the state.
pub record IsQuiet {S : Type 0} (tee : Teec S) (view : S → List String) : Type 0 where
  pub initializes : (s : S) → view (tee.initialize_context s).1 ≡ view s
  pub opens : (s : S) → view (tee.open_session s).1 ≡ view s
  pub closes : (s : S) → view (tee.close_session s) ≡ view s
  pub finalizes : (s : S) → view (tee.finalize_context s) ≡ view s

-- TEEC_InvokeCommand calls TA_InvokeCommandEntryPoint, and fails where the trusted application panics.
pub record IsJoined {S : Type 0} (client : Teec S) (ta : Sqlite S) (c : Connections S)
    (behind : List ℕ) (tee : Tee) : Type 0 where
  pub answered :
      (cmd types a r : ℕ) (s s' : S)
      → ta_invoke_command_entry_point ta c behind tee cmd types s ≡ some (r, s')
      → client.invoke_command cmd types a s ≡ (r, a, s')
  pub panicked :
      (cmd types a : ℕ) (s : S)
      → ta_invoke_command_entry_point ta c behind tee cmd types s ≡ none
      → (client.invoke_command cmd types a s).0 ≢ 0

-- What main has had executed where it returns 0: on the side of the host, and on that of the trusted
-- application.
pub record HasRun {S : Type 0} (ran_host ran_ta : S → List String) (s s' : S) : Type 0 where
  pub host : ran_host s' ≡ replicate rounds select_all ++ (create_empty_cars ∷ ran_host s)
  pub later : List String
  pub trusted : ran_ta s' ≡ later ++ (select_cars ∷ (create_cars ∷ ran_ta s))

module _ {S : Type 0} (q ta : Sqlite S) (client : Teec S) (c : Connections S) (behind : List ℕ)
    (tee : Tee) (ran_host ran_ta : S → List String) (joined : IsJoined client ta c behind tee)
    (ta_laws : Remembers ta ran_ta)
    (keys : (db : ℕ) (ds : List Db) (s : S) → ran_ta (c.with_dbs db ds s) ≡ ran_ta s)
    (quiet_host : IsQuiet client ran_host) (quiet_ta : IsQuiet client ran_ta)
    (unseen : (cmd types a : ℕ) (s : S)
      → ran_host (client.invoke_command cmd types a s).2 ≡ ran_host s) where
  abbrev types : ℕ
  types =
      client.param_types client.type_value_inout client.type_none client.type_none client.type_none

  -- TEEC_InvokeCommand that succeeds had the statements of exec executed.
  invoked :
      (s : S)
      → (client.invoke_command exec_command types 42 s).0 ≡ 0
      → (l : List String) × (ran_ta (client.invoke_command exec_command types 42 s).2
          ≡ l ++ (select_cars ∷ (create_cars ∷ ran_ta s)))
  unfolding ta_invoke_command_entry_point
  invoked s h =
      elim (Option-cases (ta_invoke_command_entry_point ta c behind tee exec_command types s)) [
        | inl panic ↦ absurd (joined.panicked exec_command types 42 s panic h)
        | inr there ↦
            let r = there.0 in
            let e = joined.answered exec_command types 42 r.0 s r.1 there.1 in
            let fine : r.0 ≡ 0 = ap (λ (z : ℕ × ℕ × S). z.0) (sym e) ∙ h in
            let run : exec ta c behind tee types s ≡ some (0, r.1) =
              there.1 ∙ ap (λ (k : ℕ). some (k, r.1)) fine in
            let t = exec-ran ta c behind ran_ta tee types s r.1 ta_laws keys run in
            (t.0, ap (λ (z : ℕ × ℕ × S). ran_ta z.2) e ∙ t.1)
      ]

  -- The part of main in the TEE, where it ends with 0.
  run_in_tee-ran :
      (s s' : S)
      → run_in_tee q client s ≡ returned 0 s'
      → (ran_host s' ≡ ran_host s)
        × ((l : List String) × (ran_ta s' ≡ l ++ (select_cars ∷ (create_cars ∷ ran_ta s))))
  unfolding run_in_tee
  run_in_tee-ran s s' h =
      let s1 = (client.initialize_context s).1 in
      let s2 = (client.open_session s1).1 in
      let s3 = (client.invoke_command exec_command types 42 s2).2 in
      elim (Bool-cases ((client.initialize_context s).0 == 0)) [
        | inr failed ↦ absurd (ground (arith, failed))
        | inl context ↦ elim (Bool-cases ((client.open_session s1).0 == 0)) [
          | inr failed ↦ absurd (ground (arith, context, failed))
          | inl session ↦
              elim (Bool-cases ((client.invoke_command exec_command types 42 s2).0 == 0)) [
                | inr failed ↦ absurd (ground (arith, context, session, failed))
                | inl command ↦
                    let it : client.finalize_context (client.close_session s3) ≡ s' =
                      ground (arith, context, session, command) in
                    let t = invoked s2 (ground (arith, command)) in
                    (
                      ap ran_host (sym it)
                          ∙ (quiet_host.finalizes (client.close_session s3)
                              ∙ (quiet_host.closes s3
                                  ∙ (unseen exec_command types 42 s2
                                      ∙ (quiet_host.opens s1 ∙ quiet_host.initializes s)))),
                      (
                        t.0,
                        ap ran_ta (sym it)
                            ∙ (quiet_ta.finalizes (client.close_session s3)
                                ∙ (quiet_ta.closes s3
                                    ∙ (t.1
                                        ∙ ap (λ l. t.0 ++ (select_cars ∷ (create_cars ∷ l)))
                                            (quiet_ta.opens s1 ∙ quiet_ta.initializes s)))),
                      ),
                    )
              ]
        ]
      ]

  module _ (laws : Remembers q ran_host) (apart : IsApart q ran_ta) where
    -- select_and_run, where the loop went on.
    after_loop :
        (s s' : S) (r : Flow S (Unit {0}))
        → select_loop q (q.open_db "/tmp/test2.db" s).1 rounds (q.open_db "/tmp/test2.db" s).2 ≡ r
        → select_and_run q client s ≡ returned 0 s'
        → (s2 : S) × (r ≡ going_on tt s2)
          × (run_in_tee q client (q.close_db (q.open_db "/tmp/test2.db" s).1 s2) ≡ returned 0 s')
    unfolding select_and_run
    after_loop s s' (stopped s2) run h = absurd (ground (arith, run))
    after_loop s s' (going_on u s2) run h = (s2, refl, ground (arith, run))

    select_and_run-ran :
        (s s' : S)
        → select_and_run q client s ≡ returned 0 s'
        → (ran_host s' ≡ replicate rounds select_all ++ ran_host s)
          × ((l : List String) × (ran_ta s' ≡ l ++ (select_cars ∷ (create_cars ∷ ran_ta s))))
    select_and_run-ran s s' h =
        let db = (q.open_db "/tmp/test2.db" s).1 in
        let s1 = (q.open_db "/tmp/test2.db" s).2 in
        let (s2, on, rest) = after_loop s s' (select_loop q db rounds s1) refl h in
        let t = run_in_tee-ran (q.close_db db s2) s' rest in
        let same : ran_ta s2 ≡ ran_ta s1 =
          ap (λ r. ran_ta (flow_state r)) (sym on) ∙ select_loop-apart apart db rounds s1 in
        (
          t.0
              ∙ (laws.closes db s2
                  ∙ (select_loop-ran laws db rounds s1 s2 on
                      ∙ ap (λ l. replicate rounds select_all ++ l) (laws.opens "/tmp/test2.db" s))),
          (
            t.1.0,
            t.1.1
                ∙ ap (λ l. t.1.0 ++ (select_cars ∷ (create_cars ∷ l)))
                    (apart.closes db s2 ∙ (same ∙ apart.opens "/tmp/test2.db" s)),
          ),
        )

    -- main, where the table was created.
    after_create :
        (s s' : S) (r : Flow S (Unit {0}))
        → exec_or_close q
            (q.open_db "/tmp/test2.db" s).1
            create_empty_cars
            (q.open_db "/tmp/test2.db" s).2
          ≡ r
        → main q client s ≡ returned 0 s'
        → (s2 : S) × (r ≡ going_on tt s2)
          × (select_and_run q client (q.close_db (q.open_db "/tmp/test2.db" s).1 s2)
              ≡ returned 0 s')
    unfolding main
    after_create s s' r run h = elim (Bool-cases ((q.open_db "/tmp/test2.db" s).0 == 0)) [
      | inr failed ↦ absurd (ground (arith, failed))
      | inl fine ↦ created r run fine h
    ]
      where
        created :
            (r : Flow S (Unit {0}))
            → exec_or_close q
                (q.open_db "/tmp/test2.db" s).1
                create_empty_cars
                (q.open_db "/tmp/test2.db" s).2
              ≡ r
            → ((q.open_db "/tmp/test2.db" s).0 == 0) ≡ true
            → main q client s ≡ returned 0 s'
            → (s2 : S) × (r ≡ going_on tt s2)
              × (select_and_run q client (q.close_db (q.open_db "/tmp/test2.db" s).1 s2)
                  ≡ returned 0 s')
        created (stopped s2) run fine h = absurd (ground (arith, run, fine))
        created (going_on u s2) run fine h = (s2, refl, ground (arith, run, fine))

    -- Where the host's main returns 0, each statement was executed with SQLITE_OK: on the host the
    -- creation of the table and then a thousand selects, and in the trusted application the
    -- creation and then a select, with other statements at most after these. TEEC_InvokeCommand is
    -- taken to run the trusted application, and SQLite to execute what it answers SQLITE_OK to.
    pub main-HasRun : (s s' : S) → main q client s ≡ returned 0 s' → HasRun ran_host ran_ta s s'
    main-HasRun s s' h =
        let db = (q.open_db "/tmp/test2.db" s).1 in
        let s1 = (q.open_db "/tmp/test2.db" s).2 in
        let r = exec_or_close q db create_empty_cars s1 in
        let (s2, on, rest) = after_create s s' r refl h in
        let t = select_and_run-ran (q.close_db db s2) s' rest in
        let first : ran_host s2 ≡ create_empty_cars ∷ ran_host s1 =
          subst (Ends laws create_empty_cars s1) on
            (exec_or_close-Ends laws db create_empty_cars s1) in
        let same : ran_ta s2 ≡ ran_ta s1 =
          ap (λ z. ran_ta (flow_state z)) (sym on)
          ∙ exec_or_close-apart apart db create_empty_cars s1 in
        record {
          host =
              t.0
              ∙ ap (λ l. replicate rounds select_all ++ l)
                  (laws.closes db s2
                    ∙ (first ∙ ap (λ l. create_empty_cars ∷ l) (laws.opens "/tmp/test2.db" s)));
          later = t.1.0;
          trusted =
              t.1.1
              ∙ ap (λ l. t.1.0 ++ (select_cars ∷ (create_cars ∷ l)))
                  (apart.closes db s2 ∙ (same ∙ apart.opens "/tmp/test2.db" s));
        }
