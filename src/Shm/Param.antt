-- ===== src/Shm/Param.antt =====
-- The access to the parameters of a request: get_value, get_param and tee_supp_param_to_va of
-- optee_client/tee-supplicant/tee_supplicant.c. `num_params` bounds the index; the array `params`
-- is the request's storage.
use tee_sqlite.Prelude.{
  ℕ, Bool, true, false, ◌||◌, List, Option, none, some, leb, ltb, add64, low32, get_elem?, ◌+◌,
  if◌then◌else◌, ◌>>=◌, ◌>>◌, guard, not,
}
use tee_sqlite.Wire.{
  Param, ParamType, value_input, value_output, value_inout, memref_input, memref_output,
  memref_inout, memref_offs, memref_size, memref_shm_id,
}
use tee_sqlite.Shm.{TeeShm, find_tshm}

unfoldable pub type_is_value : ParamType → Bool
type_is_value value_input = true
type_is_value value_output = true
type_is_value value_inout = true
type_is_value _ = false

unfoldable pub type_is_memref : ParamType → Bool
type_is_memref memref_input = true
type_is_memref memref_output = true
type_is_memref memref_inout = true
type_is_memref _ = false

unfoldable pub type_is_memref_input : ParamType → Bool
type_is_memref_input memref_input = true
type_is_memref_input _ = false

-- `none` is the return of -1; otherwise the value's fields, through the pointer that is set.
unfoldable pub get_value : ℕ → List Param → ℕ → Option Param
unfolding type_is_value
get_value num_params params idx = do
  guard (not (leb num_params idx))
  p ← get_elem? params idx
  guard (type_is_value p.type)
  some p

-- TEEC_SharedMemory: `buffer` is 0 after the memset.
pub record SharedMemory : Type 0 where
  pub buffer : ℕ
  pub size : ℕ
  pub id : ℕ
  pub inout : Bool

abbrev pub zeroed : SharedMemory
zeroed = record { buffer = 0; size = 0; id = 0; inout = false }

-- The bounds of a reference into a found buffer, and its address; -1 is `none`.
unfoldable pub locate : Param → TeeShm → Option SharedMemory
locate p tshm = do
  guard (not (ltb (add64 (memref_size p) (memref_offs p)) (memref_size p)))
  guard (not (ltb tshm.size (add64 (memref_size p) (memref_offs p))))
  some (record {
    buffer = tshm.p + memref_offs p;
    size = memref_size p;
    id = memref_shm_id p;
    inout = true;
  })

-- `none` is the return of -1; otherwise what is left in `*shm`.
unfoldable pub get_param : ℕ → List Param → ℕ → List TeeShm → Option SharedMemory
unfolding type_is_memref type_is_memref_input locate
get_param num_params params idx shms = do
  guard (not (leb num_params idx))
  p ← get_elem? params idx
  guard (type_is_memref p.type)
  elim (find_tshm (low32 (memref_shm_id p)) shms) [
    | none ↦ if type_is_memref_input p.type then none else some zeroed
    | some tshm ↦ locate p tshm
  ]

unfoldable pub param_is_memref : Param → Bool
unfolding type_is_memref
param_is_memref p = type_is_memref p.type

unfoldable pub param_is_value : Param → Bool
unfolding type_is_value
param_is_value p = type_is_value p.type

-- The address, or 0 for NULL.
unfoldable pub param_to_va : Param → List TeeShm → ℕ
unfolding param_is_memref
param_to_va p shms =
    let end_offs : ℕ = add64 (memref_size p) (memref_offs p) in
    if not (param_is_memref p)
    then 0
    else if ltb end_offs (memref_size p) || ltb end_offs (memref_offs p)
    then 0
    else elim (find_tshm (low32 (memref_shm_id p)) shms) [
      | none ↦ 0
      | some tshm ↦ if ltb tshm.size end_offs then 0 else tshm.p + memref_offs p
    ]
