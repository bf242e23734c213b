-- ===== src/Host/Tests.antt =====
-- Both worlds with a SQLite that executes all, for optee_examples/tee_sqilte/host/main.c.
use tee_sqlite.Prelude.{
  ℕ, ◌+◌, ◌*◌, ◌≡◌, refl, ap, false, List, [], ◌∷◌, Option, none, some, arith, ◌==◌, Bool-cases,
  inl, inr,
}
use Prim.Native.String.{String}
use tee_sqlite.App.{
  Sqlite, Connections, Tee, ta_invoke_command_entry_point, main_name, exec_command,
}
use tee_sqlite.App.Ran.{Remembers}
use tee_sqlite.Host.{Teec, End, returned, errx, main, rounds}
use tee_sqlite.Host.Ran.{IsJoined, HasRun, main-HasRun}

-- The statements executed in each world.
record Worlds : Type 0 where
  normal : List String
  secure : List String

abbrev ran_host : Worlds → List String
ran_host w = w.normal

abbrev ran_ta : Worlds → List String
ran_ta w = w.secure

abbrev host : Sqlite Worlds
host = record {
  open_db = λ path w. (0, 1, w);
  exec_sql = λ db sql w. (0, 0, record w { normal = sql ∷ w.normal });
  close_db = λ db w. w;
  free_message = λ m w. w;
}

abbrev ta : Sqlite Worlds
ta = record {
  open_db = λ path w. (0, 1, w);
  exec_sql = λ db sql w. (0, 0, record w { secure = sql ∷ w.secure });
  close_db = λ db w. w;
  free_message = λ m w. w;
}

abbrev connections : Connections Worlds
connections = record {
  dbs = λ db w. record { name = main_name; bt = 1; codec = none } ∷ [];
  with_dbs = λ db ds w. w;
  fresh = λ w. record {
    is_encrypted = false;
    has_read_key = false;
    read_key = [];
    has_write_key = false;
    write_key = [];
    tag = [];
    bt = 0;
  };
}

abbrev types_of : ℕ → ℕ → ℕ → ℕ → ℕ
types_of a b c d = a + 16 * b + 256 * c + 4096 * d

abbrev tee : Tee
tee = record { param_types = types_of; type_none = 0; type_value_inout = 3; bad_parameters = 6 }

-- What the client sees of a result of the trusted application, or of its panic.
abbrev answer : ℕ → Worlds → Option (ℕ × Worlds) → ℕ × ℕ × Worlds
answer a w none = (1, a, w)
answer a w (some r) = (r.0, a, r.1)

abbrev client : Teec Worlds
client = record {
  initialize_context = λ w. (0, w);
  open_session = λ w. (0, w);
  invoke_command =
      λ cmd types a w. answer a w (ta_invoke_command_entry_point ta connections [] tee cmd types w);
  close_session = λ w. w;
  finalize_context = λ w. w;
  param_types = types_of;
  type_none = 0;
  type_value_inout = 3;
}

failed : (a : ℕ) (w : Worlds) {o : Option (ℕ × Worlds)} → o ≡ none → (answer a w o).0 ≡ 0 → ⊥
failed a w h e = ground (arith, h, e)

client-IsJoined : IsJoined client ta connections [] tee
client-IsJoined = record {
  answered = λ cmd types a r s s' h. ap (λ (o : Option (ℕ × Worlds)). answer a s o) h;
  panicked = λ cmd types a s h e. failed a s h e;
}

start : Worlds
start = record { normal = []; secure = [] }

abbrev state_of : End Worlds → Worlds
state_of (returned n w) = w
state_of (errx n w) = w

ends : main host client start ≡ returned 0 (state_of (main host client start))
unfolding main start ta_invoke_command_entry_point rounds
ends = refl

host-Remembers : Remembers host ran_host
host-Remembers = record {
  opens = λ path w. refl;
  closes = λ db w. refl;
  frees = λ m w. refl;
  executes = λ db sql w. refl;
}

ta-Remembers : Remembers ta ran_ta
ta-Remembers = record {
  opens = λ path w. refl;
  closes = λ db w. refl;
  frees = λ m w. refl;
  executes = λ db sql w. refl;
}

-- No statement of the trusted application is executed in the normal world.
unseen :
    (cmd types a : ℕ) (w : Worlds) → ran_host (client.invoke_command cmd types a w).2 ≡ ran_host w
unfolding ta_invoke_command_entry_point
unseen cmd types a w = elim (Bool-cases (cmd == exec_command)) [
  | inl known ↦ rw (known, ta_invoke_command_entry_point, answer) refl
  | inr unknown ↦ rw (unknown, ta_invoke_command_entry_point, answer) refl
]

main-HasRun_example : HasRun ran_host ran_ta start (state_of (main host client start))
main-HasRun_example =
    main-HasRun host ta client connections [] tee ran_host ran_ta client-IsJoined ta-Remembers
      (λ db ds w. refl)
      (record {
        initializes = λ w. refl;
        opens = λ w. refl;
        closes = λ w. refl;
        finalizes = λ w. refl;
      })
      (record {
        initializes = λ w. refl;
        opens = λ w. refl;
        closes = λ w. refl;
        finalizes = λ w. refl;
      })
      unseen host-Remembers
      (record {
        opens = λ path w. refl;
        closes = λ db w. refl;
        frees = λ m w. refl;
        executes = λ db sql w. refl;
      })
      start (state_of (main host client start)) ends
