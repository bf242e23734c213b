-- ===== src/Vfs/Frame.antt =====
-- What a request leaves of its parameters: the handlers of
-- optee_client/tee-supplicant/tee_supplicant.c write through `val0` alone.
use tee_sqlite.Prelude.{ℕ, ◌≡◌, refl, List, [], ◌∷◌, arith, Option-cases, inl, inr}
use tee_sqlite.Wire.{Param, VfsOp, decode}
use tee_sqlite.Shm.{TeeShm}
use tee_sqlite.Vfs.Libc.{Libc, Outcome, reply, fault, set_first_bc}
use tee_sqlite.Vfs.Files.{
  vfs_close, vfs_write, vfs_ftruncate, vfs_read, vfs_fchmod, vfs_fchown, vfs_lseek, vfs_fsync,
  vfs_pread, vfs_pwrite, vfs_fcntl_void, vfs_fcntl_int, vfs_fcntl_flock, vfs_fstat, vfs_filesize,
}
use tee_sqlite.Vfs.Paths.{
  vfs_open, vfs_access, vfs_stat, vfs_mkdir, vfs_rmdir, vfs_unlink, vfs_truncate, vfs_utimes,
  vfs_getcwd,
}
use tee_sqlite.Vfs.Process.{
  vfs_geteuid, vfs_getpid, vfs_sleep, vfs_getdayoftime, vfs_time, vfs_usleep, vfs_getenv,
}
use tee_sqlite.Vfs.Dispatch.{handler, tee_supp_vfs_process}

-- The parameters after a request; a fault leaves them.
abbrev pub params_after : {W : Type 0} → List Param → Outcome W → List Param
params_after params (reply r params' w) = params'
params_after params (fault w) = params

-- But for fields b and c of parameter 0, the parameters are as before.
abbrev pub Framed : {W : Type 0} → List Param → Outcome W → Type 0
Framed params o = set_first_bc (params_after params o) 0 0 ≡ set_first_bc params 0 0

module _ {W : Type 0} (os : Libc W) where
  handler-Framed :
      (op : VfsOp) (num_params : ℕ) (p : Param) (params : List Param) (shms : List TeeShm) (w : W)
      → Framed (p ∷ params) (handler os op num_params (p ∷ params) shms w)
  unfolding handler vfs_open vfs_close vfs_access vfs_getcwd vfs_stat vfs_write vfs_read vfs_fchmod
      vfs_fchown vfs_mkdir vfs_rmdir vfs_unlink vfs_ftruncate vfs_geteuid vfs_getpid vfs_getenv
      vfs_lseek vfs_fsync vfs_sleep vfs_pread vfs_getdayoftime vfs_pwrite vfs_truncate vfs_fstat
      vfs_fcntl_void vfs_fcntl_int vfs_fcntl_flock vfs_utimes vfs_time vfs_usleep vfs_filesize
  handler-Framed _ n p params shms w = ground arith

  empty-Framed :
      (num_params : ℕ) (shms : List TeeShm) (w : W)
      → Framed [] (handler os VfsOp.open_op num_params [] shms w)
  unfolding handler vfs_open
  empty-Framed n shms w = ground arith

  pub tee_supp_vfs_process-Framed :
      (num_params : ℕ) (params : List Param) (shms : List TeeShm) (w : W)
      → Framed params (tee_supp_vfs_process os num_params params shms w)
  unfolding tee_supp_vfs_process
  tee_supp_vfs_process-Framed n [] shms w = empty-Framed n shms w
  tee_supp_vfs_process-Framed n (p ∷ params) shms w = elim (Option-cases (decode p.a)) [
    | inl unknown ↦ rw (unknown, tee_supp_vfs_process) refl
    | inr (op, known) ↦ rw (known, tee_supp_vfs_process) (handler-Framed op n p params shms w)
  ]
