-- ===== src/App.antt =====
-- The entry points of the trusted application, optee_examples/tee_sqilte/ta/tee_sqlite.c, over SQLite
-- and the internal API of the TEE, which are parameters. Calls that only log are left out, as is the
-- time that is logged.
pub mod Steps
pub mod Counts
pub mod Balance
pub mod Ran
mod Tests
use tee_sqlite.Prelude.{ℕ, ◌==◌, not, List, [], ◌∷◌, Option, none, some, if◌then◌else◌, ◌>>=◌}
use Prim.Native.String.{String}
use tee_sqlite.Codec.{Codec}
use tee_sqlite.Codec.Keys.{Db, sqlite3_key_v2}

-- SQLite, over a state `S`: sqlite3_open with the result and `*ppDb`, sqlite3_exec with the result and
-- `*errmsg`, sqlite3_close, whose result is not looked at, and sqlite3_free. A connection and a message
-- are addresses, 0 is NULL, and SQLITE_OK is 0.
pub record Sqlite (S : Type 0) : Type 0 where
  pub open_db : String → S → ℕ × ℕ × S
  pub exec_sql : ℕ → String → S → ℕ × ℕ × S
  pub close_db : ℕ → S → S
  pub free_message : ℕ → S → S

-- The databases of a connection, which sqlite3_key changes, and what sqlite3_malloc gives for a codec.
pub record Connections (S : Type 0) : Type 0 where
  pub dbs : ℕ → S → List Db
  pub with_dbs : ℕ → List Db → S → S
  pub fresh : S → Codec

-- TEE_PARAM_TYPES, its constants TEE_PARAM_TYPE_NONE and TEE_PARAM_TYPE_VALUE_INOUT, and the result
-- TEE_ERROR_BAD_PARAMETERS; TEE_SUCCESS is 0.
pub record Tee : Type 0 where
  pub param_types : ℕ → ℕ → ℕ → ℕ → ℕ
  pub type_none : ℕ
  pub type_value_inout : ℕ
  pub bad_parameters : ℕ

-- TA_TEE_SQLITE_EXEC.
abbrev pub exec_command : ℕ
exec_command = 0

abbrev pub create_cars : String
create_cars =
    "DROP TABLE IF EXISTS Cars;CREATE TABLE Cars(Id INT, Name TEXT, Price INT);INSERT INTO Cars VALUES(2, 'Mercedes', 57127);INSERT INTO Cars VALUES(3, 'Skoda', 9000);INSERT INTO Cars VALUES(4, 'Volvo', 29000);INSERT INTO Cars VALUES(5, 'Bentley', 350000);"

abbrev pub select_cars : String
select_cars = "SELECT * FROM Cars;"

-- "main" and "123456", the latter with its NUL and with what stands behind it in memory.
abbrev pub main_name : List ℕ
main_name = 109 ∷ 97 ∷ 105 ∷ 110 ∷ []

abbrev pub password : List ℕ → List ℕ
password behind = 49 ∷ 50 ∷ 51 ∷ 52 ∷ 53 ∷ 54 ∷ 0 ∷ behind

unfoldable pub ta_create_entry_point : ℕ
ta_create_entry_point = 0

unfoldable pub ta_open_session_entry_point : Tee → ℕ → ℕ
ta_open_session_entry_point tee types =
    let none_type = tee.type_none in
    if not (types == tee.param_types none_type none_type none_type none_type)
    then tee.bad_parameters
    else 0

-- A program that stops or goes on.
pub data Flow (S A : Type 0) : Type 0 where
  stopped : S → Flow S A
  going_on : A → S → Flow S A

module _ {S : Type 0} (q : Sqlite S) where
  -- sqlite3_exec, with the message freed and the connection closed where it fails.
  unfoldable pub exec_or_close : ℕ → String → S → Flow S (Unit {0})
  exec_or_close db sql s =
      let (rc, message, s1) = q.exec_sql db sql s in
      if not (rc == 0) then stopped (q.close_db db (q.free_message message s1)) else going_on tt s1

  -- testWithotKey from its first sqlite3_close on. The result of the second sqlite3_open is not looked
  -- at.
  unfoldable pub select_again : ℕ → S → S
  unfolding exec_or_close
  select_again db s =
      let (rc, db', s1) = q.open_db "/tmp/test1.db" (q.close_db db s) in
      elim (exec_or_close db' select_cars s1) [
        | stopped s2 ↦ s2
        | going_on u s2 ↦ q.close_db db' s2
      ]

  -- The result, which no caller can see since the function is `void`, is left out.
  unfoldable pub test_withot_key : S → S
  unfolding exec_or_close select_again
  test_withot_key s =
      let (rc, db, s1) = q.open_db "/tmp/test1.db" s in
      if not (rc == 0) then q.close_db db s1 else elim (exec_or_close db create_cars s1) [
        | stopped s2 ↦ s2
        | going_on u s2 ↦ select_again db s2
      ]

  -- exec from its second sqlite3_exec on. The types of the parameters are tested at the end.
  unfoldable pub select_and_test : Tee → ℕ → ℕ → S → ℕ × S
  unfolding exec_or_close test_withot_key
  select_and_test tee types db s =
      let no_type = tee.type_none in
      let expected = tee.param_types tee.type_value_inout no_type no_type no_type in
      elim (exec_or_close db select_cars s) [
        | stopped s1 ↦ (1, s1)
        | going_on u s1 ↦ (
          if not (types == expected) then tee.bad_parameters else 0,
          test_withot_key (q.close_db db s1),
        )
      ]

  -- exec from its first sqlite3_exec on.
  unfoldable pub create_and_select : Tee → ℕ → ℕ → S → ℕ × S
  unfolding exec_or_close select_and_test
  create_and_select tee types db s = elim (exec_or_close db create_cars s) [
    | stopped s1 ↦ (1, s1)
    | going_on u s1 ↦ select_and_test tee types db s1
  ]

  module _ (c : Connections S) (behind : List ℕ) where
    -- sqlite3_key, by sqlite3_key_v2 on "main". A connection that is NULL is dereferenced by
    -- dbFindIndex: `none`.
    unfoldable pub sqlite3_key : ℕ → List ℕ → ℕ → S → Option S
    unfolding sqlite3_key_v2
    sqlite3_key db key n_key s = if db == 0 then none else (do
      dbs ← sqlite3_key_v2 (c.fresh s) (c.dbs db s) (some main_name) (some key) n_key
      some (c.with_dbs db dbs s))

    -- The key is set before the result of sqlite3_open is looked at.
    unfoldable pub exec : Tee → ℕ → S → Option (ℕ × S)
    unfolding sqlite3_key create_and_select
    exec tee types s =
        let (rc, db, s1) = q.open_db "/tmp/test.db" s in
        (do
          s2 ← sqlite3_key db (password behind) 6 s1
          some (if not (rc == 0) then (1, q.close_db db s2) else create_and_select tee types db s2))

    unfoldable pub ta_invoke_command_entry_point : Tee → ℕ → ℕ → S → Option (ℕ × S)
    unfolding exec
    ta_invoke_command_entry_point tee cmd_id types s =
        if cmd_id == exec_command then exec tee types s else some (tee.bad_parameters, s)
