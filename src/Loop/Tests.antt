-- ===== src/Loop/Tests.antt =====
-- A run of the threads of optee_client/tee-supplicant/tee_supplicant.c, and a request for find_params.
use tee_sqlite.Prelude.{some, none, ◌≡◌, ◌≢◌, refl, true, false, List, [], ◌∷◌}
use tee_sqlite.Wire.{Param, value_input, value_inout, not_supported}
use tee_sqlite.Shm.Alloc.{Answers, Memory}
use tee_sqlite.Shm.Balance.{registered_count, IsBalanced}
use tee_sqlite.Vfs.Libc.{Libc, Call}
use tee_sqlite.Loop.Serve.{Request, serve_all, serve_all-IsBalanced}
use tee_sqlite.Loop.Params.{count_meta, no_meta, find_params}
use tee_sqlite.Loop.Threads
use tee_sqlite.Loop.Threads.{
  Event, Next, next, assertion_failed, step, initial, Reachable, begin, after,
}
use tee_sqlite.Loop.Waiters.{Reachable-asserted, all_meta, Exact, Reachable-Exact}

-- The state after a step, the same where there is none.
abbrev result : Threads.Threads → Next → Threads.Threads
result s (next s') = s'
result s _ = s

abbrev run : List Event → Threads.Threads → Threads.Threads
run [] s = s
run (e ∷ es) s = run es (result s (step e s))

-- The first thread takes a request and creates a second one, which waits.
abbrev busy : Threads.Threads
busy = record initial { num_waiters = 1; head = 0; receiving = 1; working = 1 }

abbrev one_created : Threads.Threads
one_created = record initial { num_waiters = 1; head = 0; created = 1; working = 1 }

run-busy :
    run
      (Event.enter ∷ Event.wait ∷ Event.receive_meta ∷ Event.take ∷ Event.spawn ∷ Event.create
        ∷ Event.start ∷ Event.enter ∷ Event.wait ∷ [])
      initial
    ≡ busy
unfolding step
run-busy = refl

busy-Reachable : Reachable all_meta busy
unfolding step
busy-Reachable =
    after Event.wait _ _
      (after Event.enter _ _
        (after Event.start one_created _
          (after Event.create _ _
            (after Event.spawn _ _
              (after Event.take _ _
                (after Event.receive_meta _ _
                  (after Event.wait _ _ (after Event.enter _ _ begin refl refl) refl refl) refl
                  refl)
                refl refl)
              refl refl)
            refl refl)
          refl refl)
        refl refl)
      refl refl

Reachable-asserted_example : step Event.start busy ≢ assertion_failed
Reachable-asserted_example = Reachable-asserted all_meta Event.start busy busy-Reachable

Reachable-Exact_example : Exact busy
Reachable-Exact_example = Reachable-Exact busy busy-Reachable (refl, refl, refl)

abbrev meta_param : Param
meta_param = record { meta = true; type = value_input; a = 0; b = 0; c = 0 }

abbrev plain_param : Param
plain_param = record { meta = false; type = value_input; a = 1; b = 2; c = 3 }

abbrev late_meta : List Param
late_meta = meta_param ∷ plain_param ∷ meta_param ∷ []

late_meta-refused : (find_params late_meta).accepted ≡ false
unfolding find_params no_meta count_meta
late_meta-refused = refl

abbrev granted : Answers
granted = record {
  calloc_ok = true;
  ioctl_fd = some 5;
  ioctl_id = 11;
  address = some 12288;
  munmap_ok = true;
}

abbrev no_memory : Memory
no_memory = record { shms = []; host = record { structs = 0; buffers = 0; fds = 0; maps = 0 } }

abbrev quiet : Libc (List Call)
quiet = record {
  call = λ c w. (0, 0, c ∷ w);
  fstat_local = λ fd w. (0, 0, 0, w);
  getenv = λ name w. none;
  store = λ buf bs w. w;
}

abbrev size_param : Param
size_param = record { meta = false; type = value_inout; a = 0; b = 256; c = 0 }

-- An allocation, a fault by a pwrite, and one that is never served.
abbrev session : List Request
session =
    record { func = 6; num_params = 1; params = size_param ∷ []; answers = granted }
    ∷ record {
      func = 30;
      num_params = 3;
      params = record size_param { a = 21 } ∷ size_param ∷ size_param ∷ [];
      answers = granted;
    }
    ∷ record { func = 7; num_params = 1; params = size_param ∷ []; answers = granted }
    ∷ []

no_memory-IsBalanced : IsBalanced no_memory
unfolding registered_count
no_memory-IsBalanced = record { structs = refl; fds = refl; buffers = refl; maps = refl }

serve_all-IsBalanced_example :
    IsBalanced
      (serve_all quiet
        (λ func n params shms w. (not_supported, params, w))
        false
        session
        no_memory
        []).0
serve_all-IsBalanced_example =
    serve_all-IsBalanced quiet (λ func n params shms w. (not_supported, params, w)) false session
      no_memory [] (refl, (refl, (refl, tt))) no_memory-IsBalanced
