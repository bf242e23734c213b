-- ===== src/Host.antt =====
-- The host application, main of optee_examples/tee_sqilte/host/main.c, over SQLite of the normal world
-- and the client API of the TEE, which are parameters. Output and times are left out.
pub mod Select
pub mod Ran
mod Tests
use tee_sqlite.Prelude.{ℕ, zero, suc, ◌==◌, not, if◌then◌else◌}
use Prim.Native.String.{String}
use tee_sqlite.App.{Sqlite, Flow, stopped, going_on, exec_command, exec_or_close}

-- TEEC_InitializeContext, TEEC_OpenSession with TA_TEE_SQLITE_UUID, TEEC_InvokeCommand with the types
-- of the parameters and the value of the first one, which it gives back, TEEC_CloseSession and
-- TEEC_FinalizeContext; TEEC_PARAM_TYPES with TEEC_VALUE_INOUT and TEEC_NONE. TEEC_SUCCESS is 0.
pub record Teec (S : Type 0) : Type 0 where
  pub initialize_context : S → ℕ × S
  pub open_session : S → ℕ × S
  pub invoke_command : ℕ → ℕ → ℕ → S → ℕ × ℕ × S
  pub close_session : S → S
  pub finalize_context : S → S
  pub param_types : ℕ → ℕ → ℕ → ℕ → ℕ
  pub type_none : ℕ
  pub type_value_inout : ℕ

-- The end of the program: main returns a status, or errx ends it.
pub data End (S : Type 0) : Type 0 where
  returned : ℕ → S → End S
  errx : ℕ → S → End S

abbrev pub create_empty_cars : String
create_empty_cars = "DROP TABLE IF EXISTS Cars;CREATE TABLE Cars(Id INT, Name TEXT, Price INT);"

abbrev pub select_all : String
select_all = "select * from Cars;"

unfoldable pub rounds : ℕ
rounds = 1000

-- The loop of as many selects as are left.
unfoldable pub select_loop : {S : Type 0} → Sqlite S → ℕ → ℕ → S → Flow S (Unit {0})
unfolding exec_or_close
select_loop q db zero s = going_on tt s
select_loop q db (suc left) s = elim (exec_or_close q db select_all s) [
  | stopped s' ↦ stopped s'
  | going_on u s' ↦ select_loop q db left s'
]

module _ {S : Type 0} (q : Sqlite S) (tee : Teec S) where
  -- From TEEC_InitializeContext on.
  unfoldable pub run_in_tee : S → End S
  run_in_tee s =
      let none_type = tee.type_none in
      let types = tee.param_types tee.type_value_inout none_type none_type none_type in
      let (res, s1) = tee.initialize_context s in
      if not (res == 0)
      then errx 1 s1
      else let (res', s2) = tee.open_session s1 in
        if not (res' == 0)
        then errx 1 s2
        else let (res2, a, s3) = tee.invoke_command exec_command types 42 s2 in
          if not (res2 == 0)
          then errx 1 s3
          else returned 0 (tee.finalize_context (tee.close_session s3))

  -- From the second sqlite3_open on, whose result is not looked at.
  unfoldable pub select_and_run : S → End S
  unfolding select_loop run_in_tee
  select_and_run s =
      let (rc, db, s1) = q.open_db "/tmp/test2.db" s in
      elim (select_loop q db rounds s1) [
        | stopped s2 ↦ returned 1 s2
        | going_on u s2 ↦ run_in_tee (q.close_db db s2)
      ]

  unfoldable pub main : S → End S
  unfolding exec_or_close select_and_run
  main s =
      let (rc, db, s1) = q.open_db "/tmp/test2.db" s in
      if not (rc == 0)
      then returned 1 (q.close_db db s1)
      else elim (exec_or_close q db create_empty_cars s1) [
        | stopped s2 ↦ returned 1 s2
        | going_on u s2 ↦ select_and_run (q.close_db db s2)
      ]
