-- ===== src/Vfs/Tests.antt =====
-- Requests to tee_supp_vfs_process of optee_client/tee-supplicant/tee_supplicant.c, over a C library
-- that records the calls.
use tee_sqlite.Prelude.{ℕ, ◌≡◌, refl, true, false, List, [], ◌∷◌, none, some, sext}
use tee_sqlite.Wire.{Param, VfsOp, value_input, value_inout, memref_input, success, decode}
use tee_sqlite.Shm.{TeeShm, find_tshm}
use tee_sqlite.Shm.Param.{get_value, param_to_va}
use tee_sqlite.Vfs.Libc.{Libc, Call, reply, fault}
use tee_sqlite.Vfs.Files.{vfs_write, vfs_pwrite}
use tee_sqlite.Vfs.Dispatch.{handler, tee_supp_vfs_process}

-- Each call gives 4 and leaves `errno`; nothing is in the environment.
abbrev recording : Libc (List Call)
recording = record {
  call = λ c w. (4, 0, c ∷ w);
  fstat_local = λ fd w. (0, 0, 10, w);
  getenv = λ name w. none;
  store = λ buf bs w. w;
}

abbrev shared : List TeeShm
shared = record { id = 7; p = 4096; size = 100; registered = true; fd = 3 } ∷ []

abbrev command : ℕ → Param
command a = record { meta = false; type = value_inout; a = a; b = 0; c = 0 }

abbrev file_value : Param
file_value = record { meta = false; type = value_input; a = 3; b = 20; c = 0 }

abbrev bytes_ref : Param
bytes_ref = record { meta = false; type = memref_input; a = 10; b = 20; c = 7 }

abbrev query : ℕ → List Param
query a = command a ∷ file_value ∷ bytes_ref ∷ []

process-write :
    tee_supp_vfs_process recording 3 (query 5) shared []
    ≡ reply success
        (record (command 5) { b = 4 } ∷ file_value ∷ bytes_ref ∷ [])
        (Call.write 3 4106 20 ∷ [])
unfolding tee_supp_vfs_process handler decode vfs_write get_value param_to_va find_tshm sext
process-write = refl

decode-pwrite : decode 21 ≡ some VfsOp.pwrite_op
unfolding decode
decode-pwrite = refl

process-pwrite : tee_supp_vfs_process recording 3 (query 21) shared [] ≡ fault []
unfolding tee_supp_vfs_process handler decode vfs_pwrite get_value
process-pwrite = refl
