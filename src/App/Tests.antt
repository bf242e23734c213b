-- ===== src/App/Tests.antt =====
-- A SQLite that executes all, for optee_examples/tee_sqilte/ta/tee_sqlite.c.
use tee_sqlite.Prelude.{one, ℕ, ◌+◌, ◌-◌, ◌*◌, ◌≡◌, refl, false, [], ◌∷◌, none, some, arith}
use tee_sqlite.App.{Sqlite, Connections, Tee, exec, main_name}
use tee_sqlite.App.Counts.{Counts, Without}
use tee_sqlite.App.Balance.{exec-Without}

-- The open connections.
abbrev sqlite : Sqlite ℕ
sqlite = record {
  open_db = λ path s. (0, 1, s + 1);
  exec_sql = λ db sql s. (0, 0, s);
  close_db = λ db s. s - one db;
  free_message = λ m s. s;
}

abbrev connections : Connections ℕ
connections = record {
  dbs = λ db s. record { name = main_name; bt = 1; codec = none } ∷ [];
  with_dbs = λ db ds s. s;
  fresh = λ s. record {
    is_encrypted = false;
    has_read_key = false;
    read_key = [];
    has_write_key = false;
    write_key = [];
    tag = [];
    bt = 0;
  };
}

abbrev tee : Tee
tee = record {
  param_types = λ a b c d. a + 16 * b + 256 * c + 4096 * d;
  type_none = 0;
  type_value_inout = 3;
  bad_parameters = 6;
}

abbrev live : ℕ → ℕ
live s = s

abbrev messages : ℕ → ℕ
messages s = 0

sqlite-Counts : Counts sqlite live messages
sqlite-Counts = record {
  opens = λ path s. refl;
  opens_silent = λ path s. refl;
  closes = λ db s h. omega (arith, h);
  closes_silent = λ db s. refl;
  executes = λ db sql s. omega arith;
  says = λ db sql s. refl;
  silent = λ db sql s h. refl;
  frees = λ m s h. omega (arith, h);
  frees_only = λ m s. refl;
}

-- exec with the types that it expects.
exec_fine : exec sqlite connections [] tee 3 7 ≡ some (0, 7)
unfolding exec
exec_fine = refl

exec-Without_example : Without sqlite-Counts 0 7 7
exec-Without_example =
    exec-Without sqlite connections [] live messages sqlite-Counts tee 3 7
      (record { connections = λ db ds s. refl; silent = λ db ds s. refl }) exec_fine
