-- ===== src/Loop/Serve.antt =====
-- The choice of an operation in process_one_request of optee_client/tee-supplicant/tee_supplicant.c,
-- and requests one after the other.
use tee_sqlite.Prelude.{
  ℕ, ◌≡◌, refl, Bool, true, List, [], ◌∷◌, ◌==◌, ◌||◌, if◌then◌else◌, subst, sym, Bool-cases, inl,
  inr,
}
use tee_sqlite.Wire.{Param, TeecResult, not_supported}
use tee_sqlite.Shm.{TeeShm}
use tee_sqlite.Shm.Alloc.{Answers, Memory, Answer, process_alloc, process_free}
use tee_sqlite.Shm.Balance.{IsBalanced, process_alloc-IsBalanced, process_free-IsBalanced}
use tee_sqlite.Vfs.Libc.{Libc, Outcome, reply, fault}
use tee_sqlite.Vfs.Dispatch.{tee_supp_vfs_process}

-- OPTEE_MSG_RPC_CMD_*.
abbrev pub cmd_shm_alloc : ℕ
cmd_shm_alloc = 6

abbrev pub cmd_shm_free : ℕ
cmd_shm_free = 7

abbrev pub cmd_open : ℕ
cmd_open = 30

-- LOAD_TA, RPMB, FS, GPROF, SOCKET, FTRACE and PLUGIN.
unfoldable pub is_external : ℕ → Bool
is_external func =
    func == 0
    || (func == 1 || (func == 2 || (func == 9 || (func == 10 || (func == 11 || func == 12)))))

-- A request, behind find_params, with what the kernel answers if memory is asked of it.
pub record Request : Type 0 where
  pub func : ℕ
  pub num_params : ℕ
  pub params : List Param
  pub answers : Answers

-- The response with the supplicant's memory and process after it, or the end by a fault.
pub data Served (W : Type 0) : Type 0 where
  responded : TeecResult → List Param → Memory → W → Served W
  crashed : Memory → W → Served W

-- What is not in this repository: the operations of the other commands. They are given the list only
-- to find buffers in it.
abbrev pub External : Type 0 → Type 0
External W = ℕ → ℕ → List Param → List TeeShm → W → TeecResult × List Param × W

abbrev pub from_answer : {W : Type 0} → Answer → W → Served W
from_answer a w = responded a.result a.params a.memory w

abbrev pub from_outcome : {W : Type 0} → Outcome W → Memory → Served W
from_outcome (reply r params w) m = responded r params m w
from_outcome (fault w) m = crashed m w

module _ {W : Type 0} (os : Libc W) (external : External W) (reg_mem : Bool) where
  unfoldable pub serve : Request → Memory → W → Served W
  unfolding is_external
  serve q m w =
      if q.func == cmd_shm_alloc
      then from_answer (process_alloc reg_mem q.answers q.num_params q.params m) w
      else if q.func == cmd_shm_free
      then from_answer (process_free q.answers q.num_params q.params m) w
      else if q.func == cmd_open
      then from_outcome (tee_supp_vfs_process os q.num_params q.params m.shms w) m
      else if is_external q.func
      then (let (r, params, w') = external q.func q.num_params q.params m.shms w in
          responded r params m w')
      else responded not_supported q.params m w

  -- What follows a response.
  abbrev pub go_on : Served W → (Memory → W → Memory × W) → Memory × W
  go_on (responded r params m w) later = later m w
  go_on (crashed m w) later = (m, w)

  -- The requests of one session, in their order, until a fault.
  unfoldable pub serve_all : List Request → Memory → W → Memory × W
  serve_all [] m w = (m, w)
  serve_all (q ∷ qs) m w = go_on (serve q m w) (λ m' w'. serve_all qs m' w')

  abbrev pub memory_after : Served W → Memory
  memory_after (responded r params m w) = m
  memory_after (crashed m w) = m

  from_outcome-memory : (o : Outcome W) (m : Memory) → memory_after (from_outcome o m) ≡ m
  from_outcome-memory (reply r params w) m = refl
  from_outcome-memory (fault w) m = refl

  kept :
      (q : Request) (m : Memory) (w : W)
      → IsBalanced m
      → IsBalanced (
          memory_after (
            if q.func == cmd_open
            then from_outcome (tee_supp_vfs_process os q.num_params q.params m.shms w) m
            else if is_external q.func
            then (let (r, params, w') = external q.func q.num_params q.params m.shms w in
                responded r params m w')
            else responded not_supported q.params m w))
  kept q m w v = elim (Bool-cases (q.func == cmd_open)) [
    | inl vfs ↦
        rw (vfs, if◌then◌else◌)
          (subst IsBalanced
            (sym (from_outcome-memory (tee_supp_vfs_process os q.num_params q.params m.shms w) m))
            v)
    | inr other ↦
        rw (other, if◌then◌else◌)
          (elim (Bool-cases (is_external q.func)) [
            | inl outside ↦ rw (outside, if◌then◌else◌) v
            | inr unknown ↦ rw (unknown, if◌then◌else◌) v
          ])
  ]

  serve-IsBalanced :
      (q : Request) (m : Memory) (w : W)
      → IsBalanced m
      → q.answers.munmap_ok ≡ true
      → IsBalanced (memory_after (serve q m w))
  unfolding serve
  serve-IsBalanced q m w v ok = elim (Bool-cases (q.func == cmd_shm_alloc)) [
    | inl alloc ↦
        rw (alloc, if◌then◌else◌)
          (process_alloc-IsBalanced reg_mem q.answers q.num_params q.params m v)
    | inr other ↦
        rw (other, if◌then◌else◌)
          (elim (Bool-cases (q.func == cmd_shm_free)) [
            | inl free ↦
                rw (free, if◌then◌else◌)
                  (process_free-IsBalanced q.answers q.num_params q.params m v ok)
            | inr other' ↦ rw (other', if◌then◌else◌) (kept q m w v)
          ])
  ]

  -- munmap does not fail in any of the requests.
  abbrev pub AllUnmapped : List Request → Type 0
  AllUnmapped [] = Unit {0}
  AllUnmapped (q ∷ qs) = (q.answers.munmap_ok ≡ true) × AllUnmapped qs

  go_on-IsBalanced :
      (o : Served W) (later : Memory → W → Memory × W)
      → IsBalanced (memory_after o)
      → ((m : Memory) (w : W) → IsBalanced m → IsBalanced (later m w).0)
      → IsBalanced (go_on o later).0
  go_on-IsBalanced (responded r params m w) later v keeps = keeps m w v
  go_on-IsBalanced (crashed m w) later v keeps = v

  -- Whatever requests come, known or not, well-formed or not, and whatever they are answered, also
  -- if one ends in a fault: after them the host's resources are in balance with the list, if they
  -- were before and munmap does not fail. The operations of other commands do not change the list.
  pub serve_all-IsBalanced :
      (qs : List Request) (m : Memory) (w : W)
      → AllUnmapped qs
      → IsBalanced m
      → IsBalanced (serve_all qs m w).0
  unfolding serve_all
  serve_all-IsBalanced [] m w ok v = v
  serve_all-IsBalanced (q ∷ qs) m w ok v =
      go_on-IsBalanced (serve q m w) (λ m' w'. serve_all qs m' w') (serve-IsBalanced q m w v ok.0)
        (λ m' w' v'. serve_all-IsBalanced qs m' w' ok.1 v')
