-- ===== src/Loop/Requests.antt =====
-- One thread of optee_client/tee-supplicant/tee_supplicant.c from request to response: read_request,
-- process_one_request, write_response, and the loop of main and thread_main around them.
use tee_sqlite.Prelude.{
  ℕ, ◌+◌, ◌*◌, ◌==◌, ◌&&◌, not, Bool, List, [], ◌∷◌, ◌++◌, Option, none, some, take, length,
  if◌then◌else◌,
}
use tee_sqlite.Wire.{Param, TeecResult}
use tee_sqlite.Shm.Alloc.{Answers, Memory}
use tee_sqlite.Vfs.Libc.{Libc}
use tee_sqlite.Loop.Params.{find_params}
use tee_sqlite.Loop.Serve.{External, Served, responded, crashed, serve, cmd_open}

-- RPC_NUM_PARAMS.
abbrev pub rpc_num_params : ℕ
rpc_num_params = 5

-- The sizes of `struct tee_iocl_supp_send_arg` and of `struct tee_ioctl_param`, which are the kernel's.
pub record Sizes : Type 0 where
  pub send_arg : ℕ
  pub param : ℕ

-- RPC_BUF_SIZE, the bytes of a request's buffer at least.
unfoldable pub rpc_buf_size : Sizes → ℕ
rpc_buf_size z = z.send_arg + rpc_num_params * z.param

-- The request's buffer as TEE_IOC_SUPPL_RECV leaves it.
pub record Recv : Type 0 where
  pub func : ℕ
  pub params : List Param

-- What a round meets: the buffer, or `none` where TEE_IOC_SUPPL_RECV fails; what num_waiters_dec returns
-- and whether spawn_thread succeeds; what the kernel answers if memory is asked of it; and whether
-- TEE_IOC_SUPPL_SEND succeeds.
pub record Round : Type 0 where
  pub recv : Option Recv
  pub waiters_left : ℕ
  pub spawn_ok : Bool
  pub answers : Answers
  pub send_ok : Bool

-- The response in the same buffer, the meta parameters in front, and the bytes of it that are sent.
pub record Send : Type 0 where
  pub ret : TeecResult
  pub params : List Param
  pub buf_len : ℕ

-- A round that ends with true and one response, with false, or in a fault.
pub data Processed (W : Type 0) : Type 0 where
  answered : Send → Memory → W → Processed W
  failed : Memory → W → Processed W
  faulted : Memory → W → Processed W

unfoldable pub response : Sizes → TeecResult → List Param → Send
response z ret params = record {
  ret = ret;
  params = params;
  buf_len = z.send_arg + z.param * length params;
}

unfoldable pub write_response : {W : Type 0} → Bool → Send → Memory → W → Processed W
write_response send_ok r m w = if send_ok then answered r m w else failed m w

-- From the switch over `func` on.
abbrev pub respond : {W : Type 0} → Sizes → Bool → List Param → Served W → Processed W
respond z send_ok metas (responded ret params m w) =
    write_response send_ok (response z ret (metas ++ params)) m w
respond z send_ok metas (crashed m w) = faulted m w

module _ {W : Type 0} (os : Libc W) (external : External W) (reg_mem : Bool) (z : Sizes) where
  -- From find_params on. The parameters behind five meta parameters would be past the storage, of
  -- which tee_supp_vfs_process reads the first.
  unfoldable pub process_found : Round → Recv → Memory → W → Processed W
  unfolding write_response response
  process_found q r m w =
      let f = find_params r.params in
      if not f.accepted
      then failed m w
      else if not (f.num_meta == 0) && (q.waiters_left == 0 && not q.spawn_ok)
      then failed m w
      else if f.num_meta == rpc_num_params && r.func == cmd_open
      then faulted m w
      else respond z q.send_ok (take f.num_meta r.params) (
          serve os external reg_mem
            (record {
              func = r.func;
              num_params = f.num_params;
              params = f.params;
              answers = q.answers;
            })
            m w)

  unfoldable pub process_one_request : Round → Memory → W → Processed W
  unfolding process_found
  process_one_request q m w = elim q.recv [ none ↦ failed m w | some r ↦ process_found q r m w ]

  -- The loop ends where a round sets `abort`.
  abbrev pub next_round :
      Processed W → (Memory → W → List Send × Memory × W) → List Send × Memory × W
  next_round (answered r m w) later = let end = later m w in (r ∷ end.0, end.1, end.2)
  next_round (failed m w) later = ([], m, w)
  next_round (faulted m w) later = ([], m, w)

  -- The responses that are sent, in their order, and what is left. The rounds are those until another
  -- thread sets `abort`.
  unfoldable pub thread_loop : List Round → Memory → W → List Send × Memory × W
  unfolding process_one_request
  thread_loop [] m w = ([], m, w)
  thread_loop (q ∷ qs) m w = next_round (process_one_request q m w) (λ m' w'. thread_loop qs m' w')
