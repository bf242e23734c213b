-- ===== src/Loop/Answered.antt =====
-- What becomes of the requests of a thread in optee_client/tee-supplicant/tee_supplicant.c: their
-- responses.
use tee_sqlite.Prelude.{
  ℕ, ◌+◌, ◌*◌, ◌≡◌, ◌≢◌, ◌≤◌, ◌<◌, ◌⊎◌, refl, sym, ap, ◌∙◌, Bool, true, false, ◌==◌, ◌&&◌, not,
  List, [], ◌∷◌, ◌++◌, some, map, take, length, length-append, arith, Bool-cases, inl, inr,
  if◌then◌else◌,
}
use tee_sqlite.Wire.{Param}
use tee_sqlite.Shm.{TeeShm}
use tee_sqlite.Shm.Alloc.{Answers, Memory, set_first_c, process_alloc, process_free}
use tee_sqlite.Vfs.Libc.{Libc, Outcome, reply, fault, set_first_bc}
use tee_sqlite.Vfs.Dispatch.{tee_supp_vfs_process}
use tee_sqlite.Vfs.Frame.{Framed, tee_supp_vfs_process-Framed}
use tee_sqlite.Loop.Params.{AllMeta, NoneMeta, find_params-append}
use tee_sqlite.Loop.Serve.{
  Request, External, Served, responded, crashed, from_outcome, serve, serve_all, cmd_shm_alloc,
  cmd_shm_free, cmd_open, is_external, go_on,
}
use tee_sqlite.Loop.Requests.{
  Sizes, rpc_num_params, rpc_buf_size, Round, Send, response, respond, process_one_request,
  thread_loop, next_round, write_response,
}

-- A request as the secure kernel sends it: meta parameters, and then the others.
pub record Sent : Type 0 where
  pub func : ℕ
  pub metas : List Param
  pub params : List Param
  pub answers : Answers
  pub waiters_left : ℕ
  pub spawn_ok : Bool

-- The round in which it is received, where the response can be sent, and what is served.
abbrev pub round_of : Sent → Round
round_of q = record {
  recv = some (record { func = q.func; params = q.metas ++ q.params });
  waiters_left = q.waiters_left;
  spawn_ok = q.spawn_ok;
  answers = q.answers;
  send_ok = true;
}

abbrev pub request_of : Sent → Request
request_of q = record {
  func = q.func;
  num_params = length q.params;
  params = q.params;
  answers = q.answers;
}

-- The request fits the buffer, with room behind the meta parameters where it is for the file system, and
-- another thread waits or can be created.
pub record IsFine (q : Sent) : Type 0 where
  pub in_front : AllMeta (length q.metas) q.metas
  pub behind : NoneMeta q.params
  pub few : length (q.metas ++ q.params) ≤ rpc_num_params
  pub room : (length q.metas < rpc_num_params) ⊎ (q.func ≢ cmd_open)
  pub goes_on : (q.spawn_ok ≡ true) ⊎ (q.waiters_left ≢ 0)

abbrev pub AllFine : List Sent → Type 0
AllFine [] = Unit {0}
AllFine (q ∷ qs) = IsFine q × AllFine qs

-- The operations of the other commands write parameters in place.
abbrev pub KeepsCount : {W : Type 0} → External W → Type 0
KeepsCount {W} external =
    (func n : ℕ) (params : List Param) (shms : List TeeShm) (w : W)
    → length (external func n params shms w).1 ≡ length params

abbrev Counted : {W : Type 0} → ℕ → Served W → Type 0
Counted n (responded ret params m w) = length params ≡ n
Counted n (crashed m w) = Unit {0}

length-set_first_bc : (ps : List Param) (b c : ℕ) → length (set_first_bc ps b c) ≡ length ps
length-set_first_bc [] b c = refl
length-set_first_bc (p ∷ ps) b c = refl

length-set_first_c : (ps : List Param) (c : ℕ) → length (set_first_c ps c) ≡ length ps
unfolding set_first_c
length-set_first_c [] c = refl
length-set_first_c (p ∷ ps) c = refl

length-process_alloc :
    (reg_mem : Bool) (a : Answers) (n : ℕ) (ps : List Param) (m : Memory)
    → length (process_alloc reg_mem a n ps m).params ≡ length ps
unfolding process_alloc
length-process_alloc reg_mem a n [] m = ground arith
length-process_alloc reg_mem a n (p ∷ ps) m = ground arith

length-process_free :
    (a : Answers) (n : ℕ) (ps : List Param) (m : Memory)
    → length (process_free a n ps m).params ≡ length ps
unfolding process_free
length-process_free a n ps m = ground arith

module _ {W : Type 0} where
  from_outcome-Counted :
      (params : List Param) (m : Memory) (o : Outcome W)
      → Framed params o
      → Counted (length params) (from_outcome o m)
  from_outcome-Counted params m (reply r ps w) h =
      sym (length-set_first_bc ps 0 0) ∙ (ap length h ∙ length-set_first_bc params 0 0)
  from_outcome-Counted params m (fault w) h = tt

module _ {W : Type 0} (os : Libc W) (external : External W) (reg_mem : Bool) (z : Sizes)
    (keeps : KeepsCount external) where
  serve-Counted :
      (q : Request) (m : Memory) (w : W)
      → Counted (length q.params) (serve os external reg_mem q m w)
  unfolding serve
  serve-Counted q m w = elim (Bool-cases (q.func == cmd_shm_alloc)) [
    | inl alloc ↦
        rw (alloc, if◌then◌else◌) (length-process_alloc reg_mem q.answers q.num_params q.params m)
    | inr a ↦ elim (Bool-cases (q.func == cmd_shm_free)) [
      | inl free ↦
          rw (a, free, if◌then◌else◌) (length-process_free q.answers q.num_params q.params m)
      | inr b ↦ elim (Bool-cases (q.func == cmd_open)) [
        | inl vfs ↦
            rw (a, b, vfs, if◌then◌else◌)
              (from_outcome-Counted q.params m
                (tee_supp_vfs_process os q.num_params q.params m.shms w)
                (tee_supp_vfs_process-Framed os q.num_params q.params m.shms w))
        | inr c ↦ elim (Bool-cases (is_external q.func)) [
          | inl outside ↦
              rw (a, b, c, outside, if◌then◌else◌) (keeps q.func q.num_params q.params m.shms w)
          | inr unknown ↦ rw (a, b, c, unknown, if◌then◌else◌) refl
        ]
      ]
    ]
  ]

  take-metas : (ms ps : List Param) → take (length ms) (ms ++ ps) ≡ ms
  take-metas [] ps = refl
  take-metas (p ∷ ms) ps = ap (λ l. p ∷ l) (take-metas ms ps)

  -- A round with such a request gets as far as the operation.
  process_one_request-respond :
      (q : Sent) (m : Memory) (w : W)
      → IsFine q
      → process_one_request os external reg_mem z (round_of q) m w
        ≡ respond z true q.metas (serve os external reg_mem (request_of q) m w)
  unfolding process_one_request
  process_one_request-respond q m w v =
      rw
        (
          find_params-append q.metas q.params v.in_front v.behind,
          passes,
          stored,
          if◌then◌else◌,
          take-metas q.metas q.params,
        )
        refl
    where
      passes : (not (length q.metas == 0) && (q.waiters_left == 0 && not q.spawn_ok)) ≡ false
      passes = ground arith

      stored : (length q.metas == rpc_num_params && q.func == cmd_open) ≡ false
      stored = ground (arith, v.room)

  -- What follows a response.
  abbrev pub Later : Type 1
  Later = Memory → W → List Send → Type 0

  -- The response to a request, and what follows it; none where its operation ends in a fault.
  abbrev pub Answered : Sent → Served W → Later → List Send → Type 0
  Answered q (responded ret ps m w) later [] = ⊥
  Answered q (responded ret ps m w) later (r ∷ rs) =
      (r.ret ≡ ret)
      × (r.params ≡ q.metas ++ ps)
      × (length r.params ≡ length (q.metas ++ q.params))
      × (r.buf_len ≤ rpc_buf_size z)
      × later m w rs
  Answered q (crashed m w) later [] = Unit {0}
  Answered q (crashed m w) later (r ∷ rs) = ⊥

  -- The responses to requests, served one after the other from a memory and a process on.
  abbrev pub AllAnswered : List Sent → Memory → W → List Send → Type 0
  AllAnswered [] m w [] = Unit {0}
  AllAnswered [] m w (r ∷ rs) = ⊥
  AllAnswered (q ∷ qs) m w rs =
      Answered q (serve os external reg_mem (request_of q) m w)
        (λ m' w' rs'. AllAnswered qs m' w' rs') rs

  response_fits :
      (q : Sent) (ps : List Param)
      → IsFine q
      → length ps ≡ length q.params
      → (length (q.metas ++ ps) ≡ length (q.metas ++ q.params))
        × (z.send_arg + z.param * length (q.metas ++ ps) ≤ rpc_buf_size z)
  unfolding rpc_buf_size
  response_fits q ps v e =
      let same : length (q.metas ++ ps) ≡ length (q.metas ++ q.params) =
        omega (arith, e, length-append q.metas ps, length-append q.metas q.params) in
      (same, grind (arith, same, v.few))

  pub record Looped (qs : List Sent) (m : Memory) (w : W) (r : List Send × Memory × W)
      : Type 0 where
    pub sent : AllAnswered qs m w r.0
    pub memory : r.1 ≡ (serve_all os external reg_mem (map request_of qs) m w).0
    pub process : r.2 ≡ (serve_all os external reg_mem (map request_of qs) m w).1

  record Stepped (q : Sent) (qs : List Sent) (o : Served W) (r : List Send × Memory × W)
      : Type 0 where
    sent : Answered q o (λ m' w' rs'. AllAnswered qs m' w' rs') r.0
    memory :
        r.1
        ≡ (go_on os external reg_mem o
            (λ m' w'. serve_all os external reg_mem (map request_of qs) m' w')).0
    process :
        r.2
        ≡ (go_on os external reg_mem o
            (λ m' w'. serve_all os external reg_mem (map request_of qs) m' w')).1

  next_round-Looped :
      (q : Sent) (qs : List Sent) (m : Memory) (w : W)
      → IsFine q
      → (o : Served W) → Counted (length q.params) o
      → ((m' : Memory) (w' : W)
          → Looped qs m' w' (thread_loop os external reg_mem z (map round_of qs) m' w'))
      → Stepped q qs o (
          next_round os external reg_mem z
            (respond z true q.metas o)
            (λ m' w'. thread_loop os external reg_mem z (map round_of qs) m' w'))
  unfolding response write_response
  next_round-Looped q qs m w v (responded ret ps m' w') e later =
      let l = later m' w' in
      let fits = response_fits q ps v e in
      record { sent = (refl, refl, fits.0, fits.1, l.sent); memory = l.memory; process = l.process }
  next_round-Looped q qs m w v (crashed m' w') e later = record {
    sent = tt;
    memory = refl;
    process = refl;
  }

  -- Where requests fit the buffer, with their meta parameters in front and, where they are for the
  -- file system, fewer than five of these, another thread waits or can be created for each that has
  -- a meta parameter, responses can be sent, and the operations of the other commands keep the number
  -- of parameters: a thread of the supplicant answers each request
  -- with one response, in the order of the requests, up to a fault in an operation. The response
  -- has the result of its operation, the meta parameters untouched in front, then the operation's
  -- parameters, as many in all as the request had, and is no longer than the buffer. Memory and
  -- process end as the operations one after the other leave them.
  pub thread_loop-Looped :
      (qs : List Sent) (m : Memory) (w : W)
      → AllFine qs
      → Looped qs m w (thread_loop os external reg_mem z (map round_of qs) m w)
  unfolding thread_loop serve_all
  thread_loop-Looped [] m w fine = record { sent = tt; memory = refl; process = refl }
  thread_loop-Looped (q ∷ qs) m w fine =
      let o = serve os external reg_mem (request_of q) m w in
      let s =
        next_round-Looped q qs m w fine.0 o (serve-Counted (request_of q) m w)
          (λ m' w'. thread_loop-Looped qs m' w' fine.1) in
      rw (process_one_request-respond q m w fine.0)
        (record { sent = s.sent; memory = s.memory; process = s.process })
