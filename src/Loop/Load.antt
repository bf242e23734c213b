-- ===== src/Loop/Load.antt =====
-- load_ta, uuid_from_octets and process_rpmb of optee_client/tee-supplicant/tee_supplicant.c.
use tee_sqlite.Prelude.{
  ℕ, ◌+◌, ◌*◌, ◌^◌, ◌≤◌, ◌≡◌, ◌⊎◌, Bool, true, ◌==◌, ◌&&◌, not, ltb, List, [], ◌∷◌, none, some,
  get_elem?, if◌then◌else◌,
}
use tee_sqlite.Wire.{Param, TeecResult, bad_parameters, success, item_not_found, short_buffer}
use tee_sqlite.Shm.{TeeShm}
use tee_sqlite.Shm.Param.{SharedMemory, get_value, get_param}
use tee_sqlite.Shm.Bounds.{Reach}
use tee_sqlite.Loop.Serve.{External}

-- TEEC_UUID.
pub record Uuid : Type 0 where
  pub time_low : ℕ
  pub time_mid : ℕ
  pub time_hi_and_version : ℕ
  pub clock_seq_and_node : List ℕ

-- `s` are the octets; shifted ones do not overlap.
unfoldable pub uuid_from_octets : (ℕ → ℕ) → Uuid
uuid_from_octets s = record {
  time_low = s 0 * 2 ^ 24 + s 1 * 2 ^ 16 + s 2 * 2 ^ 8 + s 3;
  time_mid = s 4 * 2 ^ 8 + s 5;
  time_hi_and_version = s 6 * 2 ^ 8 + s 7;
  clock_seq_and_node = s 8 ∷ s 9 ∷ s 10 ∷ s 11 ∷ s 12 ∷ s 13 ∷ s 14 ∷ s 15 ∷ [];
}

-- MEMREF_SIZE(params + 1) = size.
unfoldable pub set_size : List Param → ℕ → List Param
set_size (p ∷ q ∷ ps) size = p ∷ record q { b = size } ∷ ps
set_size ps size = ps

-- What is not in this repository: TEECI_LoadSecureModule, which finds a trusted application and its
-- size, and copies it to the buffer if it fits; rpmb_process_request; and the octets of a value in
-- the memory of the machine.
pub record Modules (W : Type 0) : Type 0 where
  pub load_secure_module : Uuid → ℕ → ℕ → W → Bool × ℕ × W
  pub rpmb_process_request : ℕ → ℕ → ℕ → ℕ → W → TeecResult × W
  pub octets : Param → ℕ → ℕ

-- The end of load_ta, for the buffer that get_param gave.
unfoldable pub loaded :
    {W : Type 0} → SharedMemory → List Param → Bool × ℕ × W → TeecResult × List Param × W
unfolding set_size
loaded shm_ta params (found, size, w) =
    if not found
    then (item_not_found, params, w)
    else if not (shm_ta.buffer == 0) && ltb shm_ta.size size
    then (short_buffer, set_size params size, w)
    else (success, set_size params size, w)

module _ {W : Type 0} (modules : Modules W) where
  unfoldable pub load_ta : ℕ → List Param → List TeeShm → W → TeecResult × List Param × W
  unfolding loaded uuid_from_octets
  load_ta num_params params shms w =
      if num_params == 2
      then elim (get_value num_params params 0) [
        | none ↦ (bad_parameters, params, w)
        | some val_cmd ↦ elim (get_param num_params params 1 shms) [
          | none ↦ (bad_parameters, params, w)
          | some shm_ta ↦ loaded shm_ta params (
              modules.load_secure_module (uuid_from_octets (modules.octets val_cmd)) shm_ta.buffer
                shm_ta.size w)
        ]
      ]
      else (bad_parameters, params, w)

  unfoldable pub process_rpmb : ℕ → List Param → List TeeShm → W → TeecResult × List Param × W
  process_rpmb num_params params shms w = elim (get_param num_params params 0 shms) [
    | none ↦ (bad_parameters, params, w)
    | some req ↦ elim (get_param num_params params 1 shms) [
      | none ↦ (bad_parameters, params, w)
      | some rsp ↦
          let (r, w') = modules.rpmb_process_request req.buffer req.size rsp.buffer rsp.size w in
          (r, params, w')
    ]
  ]

  -- LOAD_TA and RPMB among the operations of process_one_request; `other` are the rest.
  unfoldable pub dispatched : External W → External W
  unfolding load_ta process_rpmb
  dispatched other func num_params params shms w =
      if func == 0
      then load_ta num_params params shms w
      else if func == 1
      then process_rpmb num_params params shms w
      else other func num_params params shms w

-- What a successful load leaves: the loader found the trusted application that the octets of the first
-- parameter name, for the buffer of the second, and gave its size and the state.
pub record IsLoaded {W : Type 0} (modules : Modules W) (p q : Param) (shms : List TeeShm) (w : W)
    (r : TeecResult × List Param × W) : Type 0 where
  pub memory : SharedMemory
  pub size : ℕ
  pub asked :
      modules.load_secure_module (uuid_from_octets (modules.octets p)) memory.buffer memory.size w
      ≡ (true, size, r.2)
  pub reach : Reach q shms memory
  pub reported : get_elem? r.1 1 ≡ some (record q { b = size })
  pub fits : (memory.buffer ≡ 0) ⊎ (size ≤ memory.size)
