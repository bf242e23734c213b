-- ===== src/Vfs/Dispatch.antt =====
-- tee_supp_vfs_process of optee_client/tee-supplicant/tee_supplicant.c.
use tee_sqlite.Prelude.{ℕ, ◌≡◌, List, [], ◌∷◌, none, some}
use tee_sqlite.Wire.{Param, VfsOp, not_supported, decode}
use tee_sqlite.Shm.{TeeShm}
use tee_sqlite.Vfs.Libc.{Libc, reply, Handler}
use tee_sqlite.Vfs.Files.{
  vfs_close, vfs_write, vfs_ftruncate, vfs_read, vfs_fchmod, vfs_fchown, vfs_lseek, vfs_fsync,
  vfs_pread, vfs_pwrite, vfs_fcntl_void, vfs_fcntl_int, vfs_fcntl_flock, vfs_fstat, vfs_filesize,
}
use tee_sqlite.Vfs.Paths.{
  vfs_open, vfs_access, vfs_stat, vfs_mkdir, vfs_rmdir, vfs_unlink, vfs_truncate, vfs_utimes,
  vfs_getcwd,
}
use tee_sqlite.Vfs.Process.{
  vfs_geteuid, vfs_getpid, vfs_sleep, vfs_getdayoftime, vfs_time, vfs_usleep, vfs_getenv,
}

module _ {W : Type 0} (os : Libc W) where
  -- The calls in the cases of the switch.
  unfoldable pub handler : VfsOp → Handler W
  handler VfsOp.open_op = vfs_open os
  handler VfsOp.close_op = vfs_close os
  handler VfsOp.access_op = vfs_access os
  handler VfsOp.getcwd_op = vfs_getcwd os
  handler VfsOp.stat_op = vfs_stat os
  handler VfsOp.write_op = vfs_write os
  handler VfsOp.mkdir_op = vfs_mkdir os
  handler VfsOp.rmdir_op = vfs_rmdir os
  handler VfsOp.unlink_op = vfs_unlink os
  handler VfsOp.ftruncate_op = vfs_ftruncate os
  handler VfsOp.read_op = vfs_read os
  handler VfsOp.fchmod_op = vfs_fchmod os
  handler VfsOp.fchown_op = vfs_fchown os
  handler VfsOp.geteuid_op = vfs_geteuid os
  handler VfsOp.getpid_op = vfs_getpid os
  handler VfsOp.getenv_op = vfs_getenv os
  handler VfsOp.lseek_op = vfs_lseek os
  handler VfsOp.fsync_op = vfs_fsync os
  handler VfsOp.sleep_op = vfs_sleep os
  handler VfsOp.gettimeofday_op = vfs_getdayoftime os
  handler VfsOp.pwrite_op = vfs_pwrite os
  handler VfsOp.pread_op = vfs_pread os
  handler VfsOp.truncate_op = vfs_truncate os
  handler VfsOp.fstat_op = vfs_fstat os
  handler VfsOp.fcntl_void_op = vfs_fcntl_void os
  handler VfsOp.fcntl_int_op = vfs_fcntl_int os
  handler VfsOp.fcntl_flock_op = vfs_fcntl_flock os
  handler VfsOp.utimes_op = vfs_utimes os
  handler VfsOp.time_op = vfs_time os
  handler VfsOp.usleep_op = vfs_usleep os
  handler VfsOp.filesize_op = vfs_filesize os

  -- `params->a` chooses the case; where there is no parameter, it is 0, as the storage of a request is
  -- cleared, and 0 is the code of open.
  unfoldable pub tee_supp_vfs_process : Handler W
  unfolding handler
  tee_supp_vfs_process num_params [] shms w = handler VfsOp.open_op num_params [] shms w
  tee_supp_vfs_process num_params (p ∷ params) shms w = elim (decode p.a) [
    | none ↦ reply not_supported (p ∷ params) w
    | some op ↦ handler op num_params (p ∷ params) shms w
  ]

  pub process-handler :
      (op : VfsOp) (num_params : ℕ) (p : Param) (params : List Param) (shms : List TeeShm) (w : W)
      → decode p.a ≡ some op
      → tee_supp_vfs_process num_params (p ∷ params) shms w
        ≡ handler op num_params (p ∷ params) shms w
  unfolding tee_supp_vfs_process
  process-handler op n p params shms w known = rw (known, tee_supp_vfs_process)
