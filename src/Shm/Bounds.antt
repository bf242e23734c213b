-- ===== src/Shm/Bounds.antt =====
-- Memory safety of the references that a request carries: what get_param and tee_supp_param_to_va
-- of optee_client/tee-supplicant/tee_supplicant.c hand out.
use tee_sqlite.Prelude.{
  ℕ, ◌+◌, ◌^◌, ◌≤◌, ◌<◌, ◌≡◌, ◌≢◌, inl, inr, List, true, false, Option, none, some, arith, low32,
  get_elem?, Option-cases,
}
use tee_sqlite.Wire.{Param, memref_shm_id}
use tee_sqlite.Shm.{TeeShm, find_tshm}
use tee_sqlite.Shm.Param.{
  type_is_memref_input, SharedMemory, get_param, param_to_va, locate, zeroed, param_is_memref,
}

-- The fields of a parameter are 64-bit words.
pub record IsWord (p : Param) : Type 0 where
  pub a_lt : p.a < 2 ^ 64
  pub b_lt : p.b < 2 ^ 64

locate_bounds :
    (p : Param) (t : TeeShm) {m : SharedMemory}
    → IsWord p
    → locate p t ≡ some m
    → (m.buffer ≡ t.p + p.a)
      × (m.size ≡ p.b)
      × (p.a + p.b < 2 ^ 64)
      × (p.a + p.b ≤ t.size)
      × (t.p ≤ m.buffer)
      × (m.buffer + m.size ≤ t.p + t.size)
unfolding locate
locate_bounds p t w h = ground arith

-- What a request may reach through get_param.
pub data Reach (p : Param) (shms : List TeeShm) (m : SharedMemory) : Type 0 where
  unknown :
      find_tshm (low32 (memref_shm_id p)) shms ≡ none
      → m ≡ zeroed
      → type_is_memref_input p.type ≡ false
      → Reach p shms m
  within :
      (t : TeeShm)
      → find_tshm (low32 (memref_shm_id p)) shms ≡ some t
      → t.p ≤ m.buffer
      → m.buffer + m.size ≤ t.p + t.size
      → Reach p shms m

-- If get_param returns 0 for a parameter whose fields are 64-bit words, then either its buffer is
-- unknown, the parameter is no pure input, and NULL of size 0 is handed out; or the buffer is in the
-- list and all bytes handed out lie inside it. No sum that wraps round gets through.
pub get_param_bounds :
    (num_params : ℕ) (params : List Param) (idx : ℕ) (shms : List TeeShm) (p : Param)
    {m : SharedMemory}
    → get_elem? params idx ≡ some p
    → IsWord p
    → get_param num_params params idx shms ≡ some m
    → Reach p shms m
unfolding get_param
get_param_bounds n params idx shms p {m} e w h =
    elim (Option-cases (find_tshm (low32 (memref_shm_id p)) shms)) [
      | inl out ↦ unknown out (ground arith) (ground arith)
      | inr (t, found) ↦
          let b = locate_bounds p t {m = m} w (ground arith) in within t found b.4 b.5
    ]

-- A non-NULL address from tee_supp_param_to_va, of a parameter whose fields are 64-bit words, is
-- that of a memory reference into a buffer of the list, and the referenced bytes lie inside it.
pub param_to_va_bounds :
    (p : Param) (shms : List TeeShm)
    → IsWord p
    → param_to_va p shms ≢ 0
    → (t : TeeShm) × (find_tshm (low32 (memref_shm_id p)) shms ≡ some t)
      × (param_is_memref p ≡ true)
      × (param_to_va p shms ≡ t.p + p.a)
      × (p.a + p.b ≤ t.size)
unfolding param_to_va
param_to_va_bounds p shms w h = elim (Option-cases (find_tshm (low32 (memref_shm_id p)) shms)) [
  | inl out ↦ absurd (h (ground arith))
  | inr (t, found) ↦ (t, found, ground arith, ground arith, ground arith)
]

abbrev pub Agrees : ℕ → Option SharedMemory → Type 0
Agrees va none = va ≡ 0
Agrees va (some m) = (va ≡ m.buffer) × (0 < m.buffer)

-- The two accesses agree: for a parameter within the request whose fields are 64-bit words and
-- whose buffer is in the list, get_param fails exactly where tee_supp_param_to_va gives NULL (given
-- that the buffer is not at address 0), and otherwise they give the same address.
pub get_param-param_to_va :
    (num_params : ℕ) (params : List Param) (idx : ℕ) (shms : List TeeShm) (p : Param) (t : TeeShm)
    → idx < num_params
    → get_elem? params idx ≡ some p
    → IsWord p
    → find_tshm (low32 (memref_shm_id p)) shms ≡ some t
    → 0 < t.p
    → Agrees (param_to_va p shms) (get_param num_params params idx shms)
unfolding get_param param_to_va
get_param-param_to_va n params idx shms p t lt e w found pos = ground arith
