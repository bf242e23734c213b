-- ===== src/Scall/Dispatch.antt =====
-- That the table is ordered by the numbers, in optee_os/core/kernel/scall.c.
use tee_sqlite.Prelude.{
  ℕ, ◌≤◌, ◌≡◌, ◌≢◌, refl, ap, ◌∙◌, sym, true, false, ◌==◌, List, Option, some, some_inj, Bool-cases,
  inl, inr, ltb, if◌then◌else◌, arith,
}
use tee_sqlite.Wire.{VfsOp}
use tee_sqlite.Scall.{
  Call, tee_scn, tee_svc_max_args, vfs_entries, tee_syscall_table, get_tee_syscall_func, Regs,
  scall_handle_user_ta,
}

vfs-get_tee_syscall_func :
    (op : VfsOp) → get_tee_syscall_func (tee_scn (Call.vfs op)) ≡ some (Call.vfs op)
unfolding get_tee_syscall_func tee_scn tee_syscall_table vfs_entries
vfs-get_tee_syscall_func VfsOp.open_op = refl
vfs-get_tee_syscall_func VfsOp.close_op = refl
vfs-get_tee_syscall_func VfsOp.access_op = refl
vfs-get_tee_syscall_func VfsOp.getcwd_op = refl
vfs-get_tee_syscall_func VfsOp.stat_op = refl
vfs-get_tee_syscall_func VfsOp.write_op = refl
vfs-get_tee_syscall_func VfsOp.mkdir_op = refl
vfs-get_tee_syscall_func VfsOp.rmdir_op = refl
vfs-get_tee_syscall_func VfsOp.unlink_op = refl
vfs-get_tee_syscall_func VfsOp.ftruncate_op = refl
vfs-get_tee_syscall_func VfsOp.read_op = refl
vfs-get_tee_syscall_func VfsOp.fchmod_op = refl
vfs-get_tee_syscall_func VfsOp.fchown_op = refl
vfs-get_tee_syscall_func VfsOp.geteuid_op = refl
vfs-get_tee_syscall_func VfsOp.getpid_op = refl
vfs-get_tee_syscall_func VfsOp.getenv_op = refl
vfs-get_tee_syscall_func VfsOp.lseek_op = refl
vfs-get_tee_syscall_func VfsOp.fsync_op = refl
vfs-get_tee_syscall_func VfsOp.sleep_op = refl
vfs-get_tee_syscall_func VfsOp.pread_op = refl
vfs-get_tee_syscall_func VfsOp.pwrite_op = refl
vfs-get_tee_syscall_func VfsOp.truncate_op = refl
vfs-get_tee_syscall_func VfsOp.gettimeofday_op = refl
vfs-get_tee_syscall_func VfsOp.fstat_op = refl
vfs-get_tee_syscall_func VfsOp.fcntl_void_op = refl
vfs-get_tee_syscall_func VfsOp.fcntl_int_op = refl
vfs-get_tee_syscall_func VfsOp.fcntl_flock_op = refl
vfs-get_tee_syscall_func VfsOp.utimes_op = refl
vfs-get_tee_syscall_func VfsOp.time_op = refl
vfs-get_tee_syscall_func VfsOp.usleep_op = refl
vfs-get_tee_syscall_func VfsOp.filesize_op = refl

-- The table gives each system call at its number.
get_tee_syscall_func-tee_scn : (c : Call) → get_tee_syscall_func (tee_scn c) ≡ some c
unfolding get_tee_syscall_func tee_scn tee_syscall_table vfs_entries
get_tee_syscall_func-tee_scn Call.sys_return = refl
get_tee_syscall_func-tee_scn Call.log = refl
get_tee_syscall_func-tee_scn Call.panic = refl
get_tee_syscall_func-tee_scn Call.get_property = refl
get_tee_syscall_func-tee_scn Call.get_property_name_to_index = refl
get_tee_syscall_func-tee_scn Call.open_ta_session = refl
get_tee_syscall_func-tee_scn Call.close_ta_session = refl
get_tee_syscall_func-tee_scn Call.invoke_ta_command = refl
get_tee_syscall_func-tee_scn Call.check_access_rights = refl
get_tee_syscall_func-tee_scn Call.get_cancellation_flag = refl
get_tee_syscall_func-tee_scn Call.unmask_cancellation = refl
get_tee_syscall_func-tee_scn Call.mask_cancellation = refl
get_tee_syscall_func-tee_scn Call.wait = refl
get_tee_syscall_func-tee_scn Call.get_time = refl
get_tee_syscall_func-tee_scn Call.set_ta_time = refl
get_tee_syscall_func-tee_scn Call.cryp_state_alloc = refl
get_tee_syscall_func-tee_scn Call.cryp_state_copy = refl
get_tee_syscall_func-tee_scn Call.cryp_state_free = refl
get_tee_syscall_func-tee_scn Call.hash_init = refl
get_tee_syscall_func-tee_scn Call.hash_update = refl
get_tee_syscall_func-tee_scn Call.hash_final = refl
get_tee_syscall_func-tee_scn Call.cipher_init = refl
get_tee_syscall_func-tee_scn Call.cipher_update = refl
get_tee_syscall_func-tee_scn Call.cipher_final = refl
get_tee_syscall_func-tee_scn Call.cryp_obj_get_info = refl
get_tee_syscall_func-tee_scn Call.cryp_obj_restrict_usage = refl
get_tee_syscall_func-tee_scn Call.cryp_obj_get_attr = refl
get_tee_syscall_func-tee_scn Call.cryp_obj_alloc = refl
get_tee_syscall_func-tee_scn Call.cryp_obj_close = refl
get_tee_syscall_func-tee_scn Call.cryp_obj_reset = refl
get_tee_syscall_func-tee_scn Call.cryp_obj_populate = refl
get_tee_syscall_func-tee_scn Call.cryp_obj_copy = refl
get_tee_syscall_func-tee_scn Call.cryp_derive_key = refl
get_tee_syscall_func-tee_scn Call.cryp_random_number_generate = refl
get_tee_syscall_func-tee_scn Call.authenc_init = refl
get_tee_syscall_func-tee_scn Call.authenc_update_aad = refl
get_tee_syscall_func-tee_scn Call.authenc_update_payload = refl
get_tee_syscall_func-tee_scn Call.authenc_enc_final = refl
get_tee_syscall_func-tee_scn Call.authenc_dec_final = refl
get_tee_syscall_func-tee_scn Call.asymm_operate = refl
get_tee_syscall_func-tee_scn Call.asymm_verify = refl
get_tee_syscall_func-tee_scn Call.storage_obj_open = refl
get_tee_syscall_func-tee_scn Call.storage_obj_create = refl
get_tee_syscall_func-tee_scn Call.storage_obj_del = refl
get_tee_syscall_func-tee_scn Call.storage_obj_rename = refl
get_tee_syscall_func-tee_scn Call.storage_alloc_enum = refl
get_tee_syscall_func-tee_scn Call.storage_free_enum = refl
get_tee_syscall_func-tee_scn Call.storage_reset_enum = refl
get_tee_syscall_func-tee_scn Call.storage_start_enum = refl
get_tee_syscall_func-tee_scn Call.storage_next_enum = refl
get_tee_syscall_func-tee_scn Call.storage_obj_read = refl
get_tee_syscall_func-tee_scn Call.storage_obj_write = refl
get_tee_syscall_func-tee_scn Call.storage_obj_trunc = refl
get_tee_syscall_func-tee_scn Call.storage_obj_seek = refl
get_tee_syscall_func-tee_scn Call.obj_generate_key = refl
get_tee_syscall_func-tee_scn Call.cache_operation = refl
get_tee_syscall_func-tee_scn (Call.vfs op) = vfs-get_tee_syscall_func op

tee_scn_inj : (c c' : Call) → tee_scn c ≡ tee_scn c' → c ≡ c'
tee_scn_inj c c' h = some_inj (
    sym (get_tee_syscall_func-tee_scn c)
    ∙ (ap get_tee_syscall_func h ∙ get_tee_syscall_func-tee_scn c'))

tee_scn_apart : (c d : Call) {n : ℕ} → c ≢ d → n ≡ tee_scn d → (tee_scn c == n) ≡ false
tee_scn_apart c d {n} other h = elim (Bool-cases (tee_scn c == n)) [
  | inl same ↦ let e : tee_scn c ≡ n = ground arith in absurd (other (tee_scn_inj c d (e ∙ h)))
  | inr apart ↦ apart
]

return_number : 0 ≡ tee_scn Call.sys_return
unfolding tee_scn
return_number = refl

panic_number : 2 ≡ tee_scn Call.panic
unfolding tee_scn
panic_number = refl

-- A trusted application that makes a system call by its number, with at most eight arguments, gets
-- what the function of that system call returns, and goes on in user mode, unless the call is the
-- return or the panic of the application.
pub scall_handle_user_ta-tee_scn :
    {S : Type 0} (error_generic : ℕ) (do_call : Option Call → List ℕ → S → ℕ × S) (regs : Regs)
    (s : S) (c : Call)
    → regs.scn ≡ tee_scn c
    → regs.max_args ≤ tee_svc_max_args
    → c ≢ Call.sys_return
    → c ≢ Call.panic
    → scall_handle_user_ta error_generic do_call regs s ≡ (
      true,
      record regs { retval = (do_call (some c) regs.args s).0 },
      (do_call (some c) regs.args s).1,
    )
unfolding scall_handle_user_ta
scall_handle_user_ta-tee_scn error_generic do_call regs s c h few not_return not_panic =
    let accepted : ltb tee_svc_max_args regs.max_args ≡ false = ground arith in
    let stays : (regs.scn == 0) ≡ false =
      ap (λ n. n == 0) h ∙ tee_scn_apart c Call.sys_return not_return return_number in
    let goes : (regs.scn == 2) ≡ false =
      ap (λ n. n == 2) h ∙ tee_scn_apart c Call.panic not_panic panic_number in
    let it : get_tee_syscall_func regs.scn ≡ some c =
      ap get_tee_syscall_func h ∙ get_tee_syscall_func-tee_scn c in
    rw (accepted, if◌then◌else◌, stays, goes, it) refl
