-- ===== src/Loop/Waiters.antt =====
-- The count of waiters in optee_client/tee-supplicant/tee_supplicant.c: its assertion holds, and it
-- leaves a thread to take the next request.
use tee_sqlite.Prelude.{ℕ, ◌+◌, ◌≤◌, ◌<◌, ◌≡◌, ◌≢◌, refl, Bool, true, false, arith}
use tee_sqlite.Loop.Threads
use tee_sqlite.Loop.Threads.{Event, Next, next, assertion_failed, step, Reachable, begin, after}

-- The threads that stand between the count's increase for them and its decrease.
abbrev pub counted : Threads.Threads → ℕ
counted s = s.created + s.receiving + s.received + s.spawning + s.unspawned

-- The threads that stand at the head of the loop or in process_one_request up to the end of
-- read_request, and those created that come there.
abbrev pub ready : Threads.Threads → ℕ
ready s = s.created + s.head + s.entered + s.receiving

step-counted :
    (e : Event) (s s' : Threads.Threads)
    → counted s ≤ s.num_waiters
    → step e s ≡ next s'
    → counted s' ≤ s'.num_waiters
unfolding step
step-counted _ s s' h st = ground arith

Reachable-counted :
    {allowed : Event → Bool} (s : Threads.Threads) → Reachable allowed s → counted s ≤ s.num_waiters
Reachable-counted _ begin = omega arith
Reachable-counted _ (after e s0 s r ok st) = step-counted e s0 s (Reachable-counted s0 r) st

step-asserted :
    (e : Event) (s : Threads.Threads) → counted s ≤ s.num_waiters → step e s ≢ assertion_failed
unfolding step
step-asserted _ s h st = ground arith

-- The assertion of num_waiters_dec holds at each of its calls: however the threads interleave and
-- whatever the driver and pthread_create answer, no step from a reachable state fails it.
pub Reachable-asserted :
    (allowed : Event → Bool) (e : Event) (s : Threads.Threads)
    → Reachable allowed s
    → step e s ≢ assertion_failed
Reachable-asserted allowed e s r = step-asserted e s (Reachable-counted s r)

-- Each request has a meta parameter in front.
abbrev pub all_meta : Event → Bool
all_meta Event.receive_plain = false
all_meta _ = true

-- The threads that have a request, and decide whether to create a thread before they work on it.
abbrev pub deciding : Threads.Threads → ℕ
deciding s = s.received + s.alone + s.spawning

-- The count is exact, and some thread is ready, or decides whether to create one.
abbrev pub Exact : Threads.Threads → Type 0
Exact s = (s.num_waiters ≡ counted s) × (0 < ready s + deciding s)

-- No thread has left the loop or is about to: none has seen pthread_create fail, and none has returned
-- false from process_one_request.
abbrev pub NoneFailed : Threads.Threads → Type 0
NoneFailed s = (s.abort ≡ false) × (s.unspawned ≡ 0) × (s.failing ≡ 0)

step-Exact :
    (e : Event) (s s' : Threads.Threads)
    → all_meta e ≡ true
    → (NoneFailed s → Exact s)
    → step e s ≡ next s'
    → NoneFailed s'
    → Exact s'
unfolding step
step-Exact _ s s' meta h st fine = ground arith

-- Where each request has a meta parameter, in each reachable state in which no thread has seen
-- pthread_create fail or returned false from process_one_request, the count of waiters is exact, and
-- some thread waits for the next request or comes to it without the end of another, or has a request
-- and is about to decide whether to create a thread.
pub Reachable-Exact : (s : Threads.Threads) → Reachable all_meta s → NoneFailed s → Exact s
Reachable-Exact _ begin fine = (refl, omega arith)
Reachable-Exact _ (after e s0 s r ok st) fine = step-Exact e s0 s ok (Reachable-Exact s0 r) st fine
