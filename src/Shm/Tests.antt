-- ===== src/Shm/Tests.antt =====
-- Requests on a small list of shared memory, as find_tshm, get_param, process_alloc and
-- process_free of optee_client/tee-supplicant/tee_supplicant.c see them.
use tee_sqlite.Prelude.{
  ◌+◌, ◌-◌, ◌^◌, ◌≡◌, ◌≢◌, ◌≤◌, refl, true, false, List, [], ◌∷◌, none, some, arith, low32, sext,
}
use tee_sqlite.Wire.{
  Param, value_input, value_inout, memref_input, memref_output, memref_shm_id, success,
}
use tee_sqlite.Shm.{TeeShm, find_tshm}
use tee_sqlite.Shm.Param.{SharedMemory, get_param, param_to_va, param_is_memref, type_is_value}
use tee_sqlite.Shm.Bounds.{
  IsWord, Reach, get_param_bounds, param_to_va_bounds, get_param-param_to_va, Agrees,
}
use tee_sqlite.Shm.Order.{Distinct}
use tee_sqlite.Shm.Alloc.{Answers, Memory, process_alloc, process_free}
use tee_sqlite.Shm.Balance.{registered_count, IsBalanced, process_free-process_alloc}

abbrev registered_buffer : TeeShm
registered_buffer = record { id = 7; p = 4096; size = 100; registered = true; fd = 3 }

abbrev mapped_buffer : TeeShm
mapped_buffer = record { id = 9; p = 8192; size = 64; registered = false; fd = 4 }

abbrev two_buffers : List TeeShm
two_buffers = registered_buffer ∷ mapped_buffer ∷ []

-- Bytes 10 to 29 of the second buffer.
abbrev reference : Param
reference = record { meta = false; type = memref_output; a = 10; b = 20; c = 9 }

-- An offset and a size whose sum wraps round to 4.
abbrev wrapping : Param
wrapping = record { meta = false; type = memref_input; a = 2 ^ 64 - 4; b = 8; c = 9 }

reference-IsWord : IsWord reference
reference-IsWord = record { a_lt = omega arith; b_lt = omega arith }

abbrev referenced : SharedMemory
referenced = record { buffer = 8202; size = 20; id = 9; inout = true }

get_param-reference : get_param 1 (reference ∷ []) 0 two_buffers ≡ some referenced
unfolding get_param find_tshm
get_param-reference = refl

get_param-wrapping : get_param 1 (wrapping ∷ []) 0 two_buffers ≡ none
unfolding get_param find_tshm
get_param-wrapping = refl

param_to_va-reference : param_to_va reference two_buffers ≡ 8202
unfolding param_to_va find_tshm
param_to_va-reference = refl

reference-is_there : param_to_va reference two_buffers ≢ 0
reference-is_there h = omega (arith, param_to_va-reference, h)

find-mapped : find_tshm (low32 (memref_shm_id reference)) two_buffers ≡ some mapped_buffer
unfolding find_tshm
find-mapped = refl

get_param_bounds_example : Reach reference two_buffers referenced
get_param_bounds_example =
    get_param_bounds 1 (reference ∷ []) 0 two_buffers reference refl reference-IsWord
      get_param-reference

param_to_va_bounds_example :
    (t : TeeShm) × (find_tshm (low32 (memref_shm_id reference)) two_buffers ≡ some t)
    × (param_is_memref reference ≡ true)
    × (param_to_va reference two_buffers ≡ t.p + reference.a)
    × (reference.a + reference.b ≤ t.size)
param_to_va_bounds_example =
    param_to_va_bounds reference two_buffers reference-IsWord reference-is_there

get_param-param_to_va_example :
    Agrees (param_to_va reference two_buffers) (get_param 1 (reference ∷ []) 0 two_buffers)
get_param-param_to_va_example =
    get_param-param_to_va 1 (reference ∷ []) 0 two_buffers reference mapped_buffer (omega arith)
      refl reference-IsWord find-mapped (omega arith)

two_buffers-Distinct : Distinct two_buffers
unfolding find_tshm
two_buffers-Distinct = (refl, (refl, tt))

abbrev granted : Answers
granted = record {
  calloc_ok = true;
  ioctl_fd = some 5;
  ioctl_id = 11;
  address = some 12288;
  munmap_ok = true;
}

abbrev held : Memory
held = record { shms = two_buffers; host = record { structs = 2; buffers = 1; fds = 2; maps = 1 } }

abbrev size_param : Param
size_param = record { meta = false; type = value_inout; a = 0; b = 256; c = 0 }

abbrev id_param : Param
id_param = record { meta = false; type = value_input; a = 0; b = 11; c = 0 }

abbrev answered_param : Param
answered_param = record { meta = false; type = value_inout; a = 0; b = 256; c = 11 }

held-IsBalanced : IsBalanced held
unfolding registered_count
held-IsBalanced = record { structs = refl; fds = refl; buffers = refl; maps = refl }

process_alloc-size_param :
    ((process_alloc false granted 1 (size_param ∷ []) held).result ≡ success)
    × ((process_alloc false granted 1 (size_param ∷ []) held).params ≡ answered_param ∷ [])
unfolding process_alloc sext
process_alloc-size_param = (refl, refl)

process_free-process_alloc_example :
    ((process_free granted 1
        (id_param ∷ [])
        (process_alloc false granted 1 (size_param ∷ []) held).memory).result
      ≡ success)
    × ((process_free granted 1
          (id_param ∷ [])
          (process_alloc false granted 1 (size_param ∷ []) held).memory).memory
        ≡ held)
unfolding type_is_value
process_free-process_alloc_example =
    process_free-process_alloc false granted granted size_param id_param answered_param held refl
      refl (omega arith) refl (process_alloc-size_param.0) (process_alloc-size_param.1) refl
