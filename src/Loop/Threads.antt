-- ===== src/Loop/Threads.antt =====
-- The threads of optee_client/tee-supplicant/tee_supplicant.c that take requests: thread_main, the
-- loop of main, process_one_request and spawn_thread, with num_waiters_inc and num_waiters_dec. All
-- threads share `struct thread_arg`; each access of it is one step, since the mutex guards the count
-- and `abort` is a flag. The threads are counted by the place where they stand.
use tee_sqlite.Prelude.{
  ℕ, ◌+◌, ◌-◌, ◌≡◌, Bool, true, false, Option, none, some, ◌==◌, if◌then◌else◌,
}

-- The count and the flag of `struct thread_arg`, and how many threads
-- * are `created` and have not yet compensated at the head of thread_main,
-- * are at the `head` of the loop, or have `entered` process_one_request before its num_waiters_inc,
-- * are in read_request, `receiving`,
-- * have `received` a request with meta parameters, before num_waiters_dec,
-- * saw it return 0 and are in spawn_thread before num_waiters_inc (`alone`), behind it (`spawning`),
--   or behind a pthread_create that failed (`unspawned`),
-- * are `working` on a request,
-- * return false from process_one_request, before `abort` is set (`failing`).
pub record Threads : Type 0 where
  pub num_waiters : ℕ
  pub abort : Bool
  pub created : ℕ
  pub head : ℕ
  pub entered : ℕ
  pub receiving : ℕ
  pub received : ℕ
  pub alone : ℕ
  pub spawning : ℕ
  pub unspawned : ℕ
  pub working : ℕ
  pub failing : ℕ

-- What a thread does next, with what the system answers.
pub data Event : Type 0 where
  start enter wait : Event
  receive_meta receive_plain receive_none : Event
  take spawn create create_fails give_up : Event
  respond respond_fails stop : Event

-- num_waiters_inc and num_waiters_dec; `none` is a failed assertion of the latter. The former's
-- assertion is that the word does not wrap round to 0.
abbrev pub num_waiters_inc : Threads → Threads
num_waiters_inc s = record s { num_waiters = s.num_waiters + 1 }

abbrev pub num_waiters_dec : Threads → Option Threads
num_waiters_dec s =
    if s.num_waiters == 0 then none else some (record s { num_waiters = s.num_waiters - 1 })

-- The end of a step.
pub data Next : Type 0 where
  next : Threads → Next
  assertion_failed disabled : Next

-- A step of a thread that has taken one off the count.
abbrev after_dec : Option Threads → (Threads → Threads) → Next
after_dec none f = assertion_failed
after_dec (some s) f = next (f s)

abbrev when : ℕ → Next → Next
when n o = if n == 0 then disabled else o

-- One step of a thread at the place of the event; `disabled` where there is none.
unfoldable pub step : Event → Threads → Next
step start s =
    when s.created
      (after_dec (num_waiters_dec s) λ s'. record s' { created = s.created - 1; head = s.head + 1 })
step enter s = when s.head (
    if s.abort
    then next (record s { head = s.head - 1 })
    else next (record s { head = s.head - 1; entered = s.entered + 1 }))
step wait s =
    when s.entered
      (next (num_waiters_inc (record s { entered = s.entered - 1; receiving = s.receiving + 1 })))
step receive_meta s =
    when s.receiving (next (record s { receiving = s.receiving - 1; received = s.received + 1 }))
step receive_plain s =
    when s.receiving (next (record s { receiving = s.receiving - 1; working = s.working + 1 }))
step receive_none s =
    when s.receiving (next (record s { receiving = s.receiving - 1; failing = s.failing + 1 }))
step take s = when s.received (
    after_dec (num_waiters_dec s) λ s'.
      if s'.num_waiters == 0
      then record s' { received = s.received - 1; alone = s.alone + 1 }
      else record s' { received = s.received - 1; working = s.working + 1 })
step spawn s =
    when s.alone
      (next (num_waiters_inc (record s { alone = s.alone - 1; spawning = s.spawning + 1 })))
step create s = when s.spawning (
    next (record s { spawning = s.spawning - 1; created = s.created + 1; working = s.working + 1 }))
step create_fails s =
    when s.spawning (next (record s { spawning = s.spawning - 1; unspawned = s.unspawned + 1 }))
step give_up s = when s.unspawned (
    after_dec (num_waiters_dec s)
      λ s'. record s' { unspawned = s.unspawned - 1; failing = s.failing + 1 })
step respond s = when s.working (next (record s { working = s.working - 1; head = s.head + 1 }))
step respond_fails s =
    when s.working (next (record s { working = s.working - 1; failing = s.failing + 1 }))
step stop s =
    when s.failing (next (record s { failing = s.failing - 1; abort = true; head = s.head + 1 }))

-- The thread of main at the head of its loop, and nothing else.
abbrev pub initial : Threads
initial = record {
  num_waiters = 0;
  abort = false;
  created = 0;
  head = 1;
  entered = 0;
  receiving = 0;
  received = 0;
  alone = 0;
  spawning = 0;
  unspawned = 0;
  working = 0;
  failing = 0;
}

-- The states that the steps of the events in `allowed` reach.
pub data Reachable (allowed : Event → Bool) : Threads → Type 0 where
  begin : Reachable allowed initial
  after :
      (e : Event) (s s' : Threads)
      → Reachable allowed s
      → allowed e ≡ true
      → step e s ≡ next s'
      → Reachable allowed s'
