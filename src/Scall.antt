-- ===== src/Scall.antt =====
-- System calls of a trusted application: their numbers in
-- optee_os/lib/libutee/include/tee_syscall_numbers.h, and tee_syscall_table, get_tee_syscall_func and
-- scall_handle_user_ta of optee_os/core/kernel/scall.c.
mod Dispatch
mod Ldelf
mod Tests
use tee_sqlite.Prelude.{
  ℕ, ◌==◌, ◌&&◌, not, Bool, true, false, List, [], ◌∷◌, ◌++◌, map, Option, none, some, get_elem?,
  ltb, replicate, if◌then◌else◌, ◌>>=◌,
}
use tee_sqlite.Wire.{VfsOp}

-- The functions of the table. Those named syscall_vfs_* are told by their operation.
pub data Call : Type 0 where
  sys_return log panic get_property get_property_name_to_index open_ta_session : Call
  close_ta_session invoke_ta_command check_access_rights get_cancellation_flag : Call
  unmask_cancellation mask_cancellation wait get_time set_ta_time cryp_state_alloc : Call
  cryp_state_copy cryp_state_free hash_init hash_update hash_final cipher_init : Call
  cipher_update cipher_final cryp_obj_get_info cryp_obj_restrict_usage : Call
  cryp_obj_get_attr cryp_obj_alloc cryp_obj_close cryp_obj_reset cryp_obj_populate : Call
  cryp_obj_copy cryp_derive_key cryp_random_number_generate authenc_init : Call
  authenc_update_aad authenc_update_payload authenc_enc_final authenc_dec_final : Call
  asymm_operate asymm_verify storage_obj_open storage_obj_create storage_obj_del : Call
  storage_obj_rename storage_alloc_enum storage_free_enum storage_reset_enum : Call
  storage_start_enum storage_next_enum storage_obj_read storage_obj_write : Call
  storage_obj_trunc storage_obj_seek obj_generate_key cache_operation : Call
  vfs : VfsOp → Call

-- TEE_SCN_*.
unfoldable pub tee_scn : Call → ℕ
tee_scn sys_return = 0
tee_scn log = 1
tee_scn panic = 2
tee_scn get_property = 3
tee_scn get_property_name_to_index = 4
tee_scn open_ta_session = 5
tee_scn close_ta_session = 6
tee_scn invoke_ta_command = 7
tee_scn check_access_rights = 8
tee_scn get_cancellation_flag = 9
tee_scn unmask_cancellation = 10
tee_scn mask_cancellation = 11
tee_scn wait = 12
tee_scn get_time = 13
tee_scn set_ta_time = 14
tee_scn cryp_state_alloc = 15
tee_scn cryp_state_copy = 16
tee_scn cryp_state_free = 17
tee_scn hash_init = 18
tee_scn hash_update = 19
tee_scn hash_final = 20
tee_scn cipher_init = 21
tee_scn cipher_update = 22
tee_scn cipher_final = 23
tee_scn cryp_obj_get_info = 24
tee_scn cryp_obj_restrict_usage = 25
tee_scn cryp_obj_get_attr = 26
tee_scn cryp_obj_alloc = 27
tee_scn cryp_obj_close = 28
tee_scn cryp_obj_reset = 29
tee_scn cryp_obj_populate = 30
tee_scn cryp_obj_copy = 31
tee_scn cryp_derive_key = 32
tee_scn cryp_random_number_generate = 33
tee_scn authenc_init = 34
tee_scn authenc_update_aad = 35
tee_scn authenc_update_payload = 36
tee_scn authenc_enc_final = 37
tee_scn authenc_dec_final = 38
tee_scn asymm_operate = 39
tee_scn asymm_verify = 40
tee_scn storage_obj_open = 41
tee_scn storage_obj_create = 42
tee_scn storage_obj_del = 43
tee_scn storage_obj_rename = 44
tee_scn storage_alloc_enum = 45
tee_scn storage_free_enum = 46
tee_scn storage_reset_enum = 47
tee_scn storage_start_enum = 48
tee_scn storage_next_enum = 49
tee_scn storage_obj_read = 50
tee_scn storage_obj_write = 51
tee_scn storage_obj_trunc = 52
tee_scn storage_obj_seek = 53
tee_scn obj_generate_key = 54
tee_scn cache_operation = 70
tee_scn (vfs VfsOp.open_op) = 71
tee_scn (vfs VfsOp.close_op) = 72
tee_scn (vfs VfsOp.access_op) = 73
tee_scn (vfs VfsOp.getcwd_op) = 74
tee_scn (vfs VfsOp.stat_op) = 75
tee_scn (vfs VfsOp.write_op) = 76
tee_scn (vfs VfsOp.mkdir_op) = 77
tee_scn (vfs VfsOp.rmdir_op) = 78
tee_scn (vfs VfsOp.unlink_op) = 79
tee_scn (vfs VfsOp.ftruncate_op) = 80
tee_scn (vfs VfsOp.read_op) = 81
tee_scn (vfs VfsOp.fchmod_op) = 82
tee_scn (vfs VfsOp.fchown_op) = 83
tee_scn (vfs VfsOp.geteuid_op) = 84
tee_scn (vfs VfsOp.getpid_op) = 85
tee_scn (vfs VfsOp.getenv_op) = 86
tee_scn (vfs VfsOp.lseek_op) = 87
tee_scn (vfs VfsOp.fsync_op) = 88
tee_scn (vfs VfsOp.sleep_op) = 89
tee_scn (vfs VfsOp.pread_op) = 90
tee_scn (vfs VfsOp.pwrite_op) = 91
tee_scn (vfs VfsOp.truncate_op) = 92
tee_scn (vfs VfsOp.gettimeofday_op) = 93
tee_scn (vfs VfsOp.fstat_op) = 94
tee_scn (vfs VfsOp.fcntl_void_op) = 95
tee_scn (vfs VfsOp.fcntl_int_op) = 96
tee_scn (vfs VfsOp.fcntl_flock_op) = 97
tee_scn (vfs VfsOp.utimes_op) = 98
tee_scn (vfs VfsOp.time_op) = 99
tee_scn (vfs VfsOp.usleep_op) = 100
tee_scn (vfs VfsOp.filesize_op) = 101

abbrev pub tee_scn_max : ℕ
tee_scn_max = 101

abbrev pub tee_svc_max_args : ℕ
tee_svc_max_args = 8

-- The entries syscall_vfs_*, in their order.
unfoldable pub vfs_entries : List VfsOp
vfs_entries =
    VfsOp.open_op ∷ VfsOp.close_op ∷ VfsOp.access_op ∷ VfsOp.getcwd_op ∷ VfsOp.stat_op
    ∷ VfsOp.write_op ∷ VfsOp.mkdir_op ∷ VfsOp.rmdir_op ∷ VfsOp.unlink_op ∷ VfsOp.ftruncate_op
    ∷ VfsOp.read_op ∷ VfsOp.fchmod_op ∷ VfsOp.fchown_op ∷ VfsOp.geteuid_op ∷ VfsOp.getpid_op
    ∷ VfsOp.getenv_op ∷ VfsOp.lseek_op ∷ VfsOp.fsync_op ∷ VfsOp.sleep_op ∷ VfsOp.pread_op
    ∷ VfsOp.pwrite_op ∷ VfsOp.truncate_op ∷ VfsOp.gettimeofday_op ∷ VfsOp.fstat_op
    ∷ VfsOp.fcntl_void_op ∷ VfsOp.fcntl_int_op ∷ VfsOp.fcntl_flock_op ∷ VfsOp.utimes_op
    ∷ VfsOp.time_op ∷ VfsOp.usleep_op ∷ VfsOp.filesize_op ∷ []

-- Entries that are syscall_not_supported are `none`.
unfoldable pub tee_syscall_table : List (Option Call)
unfolding vfs_entries
tee_syscall_table =
    some sys_return
    ∷ some log
    ∷ some panic
    ∷ some get_property
    ∷ some get_property_name_to_index
    ∷ some open_ta_session
    ∷ some close_ta_session
    ∷ some invoke_ta_command
    ∷ some check_access_rights
    ∷ some get_cancellation_flag
    ∷ some unmask_cancellation
    ∷ some mask_cancellation
    ∷ some wait
    ∷ some get_time
    ∷ some set_ta_time
    ∷ some cryp_state_alloc
    ∷ some cryp_state_copy
    ∷ some cryp_state_free
    ∷ some hash_init
    ∷ some hash_update
    ∷ some hash_final
    ∷ some cipher_init
    ∷ some cipher_update
    ∷ some cipher_final
    ∷ some cryp_obj_get_info
    ∷ some cryp_obj_restrict_usage
    ∷ some cryp_obj_get_attr
    ∷ some cryp_obj_alloc
    ∷ some cryp_obj_close
    ∷ some cryp_obj_reset
    ∷ some cryp_obj_populate
    ∷ some cryp_obj_copy
    ∷ some cryp_derive_key
    ∷ some cryp_random_number_generate
    ∷ some authenc_init
    ∷ some authenc_update_aad
    ∷ some authenc_update_payload
    ∷ some authenc_enc_final
    ∷ some authenc_dec_final
    ∷ some asymm_operate
    ∷ some asymm_verify
    ∷ some storage_obj_open
    ∷ some storage_obj_create
    ∷ some storage_obj_del
    ∷ some storage_obj_rename
    ∷ some storage_alloc_enum
    ∷ some storage_free_enum
    ∷ some storage_reset_enum
    ∷ some storage_start_enum
    ∷ some storage_next_enum
    ∷ some storage_obj_read
    ∷ some storage_obj_write
    ∷ some storage_obj_trunc
    ∷ some storage_obj_seek
    ∷ some obj_generate_key
    ∷ (replicate 15 none ++ (some cache_operation ∷ map (λ op. some (vfs op)) vfs_entries))

-- `none` is syscall_not_supported.
unfoldable pub get_tee_syscall_func : ℕ → Option Call
unfolding tee_syscall_table
get_tee_syscall_func num =
    if ltb tee_scn_max num then none else get_elem? tee_syscall_table num >>= λ entry. entry

-- What scall_get_max_args reads from the registers, the arguments and the returned value.
pub record Regs : Type 0 where
  pub scn : ℕ
  pub max_args : ℕ
  pub args : List ℕ
  pub retval : ℕ

-- Whether the thread returns to user mode. `do_call` is scall_do_call, and `error_generic` is
-- TEE_ERROR_GENERIC; both are not in the repository.
unfoldable pub scall_handle_user_ta :
    {S : Type 0} → ℕ → (Option Call → List ℕ → S → ℕ × S) → Regs → S → Bool × Regs × S
unfolding get_tee_syscall_func
scall_handle_user_ta error_generic do_call regs s =
    if ltb tee_svc_max_args regs.max_args
    then (true, record regs { retval = error_generic }, s)
    else (let (ret, s') = do_call (get_tee_syscall_func regs.scn) regs.args s in
        (not (regs.scn == 0) && not (regs.scn == 2), record regs { retval = ret }, s'))
