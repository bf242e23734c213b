-- ===== src/Core/Values.antt =====
-- The calls of optee_os/core/tee/tee_sqlite.c whose parameters are values.
-- An `int` argument is sign-extended into a parameter's 64-bit word; a result takes the low 32 bits
-- of `params[0].u.value.b` where it is an `int`, `unsigned`, `uid_t` or `pid_t`.
use tee_sqlite.Prelude.{ℕ, List, [], ◌∷◌, Option, none, some, if◌then◌else◌, low32, sext, Bool}
use tee_sqlite.Wire.{core_code}
use tee_sqlite.Wire
use tee_sqlite.Core.{ThreadParam, value, dir_in, dir_inout, first_b, Rpc}

module _ {S : Type 0} (rpc : Rpc S) where
  -- thread_rpc_cmd with the command in parameter 0 and `rest` behind it.
  unfoldable pub request : Wire.VfsOp → List ThreadParam → S → List ThreadParam × S
  unfolding core_code
  request op rest s = rpc.cmd (value dir_inout (core_code op) 0 0 ∷ rest) s

  -- The result is the low word of `b`, or all of `b`.
  unfoldable pub ask_int : Wire.VfsOp → List ThreadParam → S → ℕ × S
  unfolding request
  ask_int op rest s = let (ps, s') = request op rest s in (low32 (first_b ps), s')

  unfoldable pub ask_long : Wire.VfsOp → List ThreadParam → S → ℕ × S
  unfolding request
  ask_long op rest s = let (ps, s') = request op rest s in (first_b ps, s')

  unfoldable pub syscall_vfs_close : ℕ → S → ℕ × S
  unfolding ask_int
  syscall_vfs_close fd s = ask_int Wire.VfsOp.close_op (value dir_in (sext fd) 0 0 ∷ []) s

  unfoldable pub syscall_vfs_ftruncate : ℕ → ℕ → S → ℕ × S
  unfolding ask_int
  syscall_vfs_ftruncate fd size s =
      ask_int Wire.VfsOp.ftruncate_op (value dir_in (sext fd) size 0 ∷ []) s

  -- `mode_t`, `uid_t` and `gid_t` are unsigned.
  unfoldable pub syscall_vfs_fchmod : ℕ → ℕ → S → ℕ × S
  unfolding ask_int
  syscall_vfs_fchmod fd mode s = ask_int Wire.VfsOp.fchmod_op (value dir_in (sext fd) mode 0 ∷ []) s

  unfoldable pub syscall_vfs_fchown : ℕ → ℕ → ℕ → S → ℕ × S
  unfolding ask_int
  syscall_vfs_fchown fd owner group s =
      ask_int Wire.VfsOp.fchown_op (value dir_in (sext fd) owner group ∷ []) s

  unfoldable pub syscall_vfs_geteuid : S → ℕ × S
  unfolding ask_int
  syscall_vfs_geteuid s = ask_int Wire.VfsOp.geteuid_op [] s

  unfoldable pub syscall_vfs_getpid : S → ℕ × S
  unfolding ask_int
  syscall_vfs_getpid s = ask_int Wire.VfsOp.getpid_op [] s

  unfoldable pub syscall_vfs_lseek : ℕ → ℕ → ℕ → S → ℕ × S
  unfolding ask_long
  syscall_vfs_lseek fd offset whence s =
      ask_long Wire.VfsOp.lseek_op (value dir_in (sext fd) offset (sext whence) ∷ []) s

  unfoldable pub syscall_vfs_fsync : ℕ → S → ℕ × S
  unfolding ask_int
  syscall_vfs_fsync fd s = ask_int Wire.VfsOp.fsync_op (value dir_in (sext fd) 0 0 ∷ []) s

  unfoldable pub syscall_vfs_sleep : ℕ → S → ℕ × S
  unfolding ask_int
  syscall_vfs_sleep seconds s = ask_int Wire.VfsOp.sleep_op (value dir_in seconds 0 0 ∷ []) s

  unfoldable pub syscall_vfs_fcntl_void : ℕ → ℕ → S → ℕ × S
  unfolding ask_int
  syscall_vfs_fcntl_void fd cmd s =
      ask_int Wire.VfsOp.fcntl_void_op (value dir_in (sext fd) (sext cmd) 0 ∷ []) s

  unfoldable pub syscall_vfs_fcntl_int : ℕ → ℕ → ℕ → S → ℕ × S
  unfolding ask_int
  syscall_vfs_fcntl_int fd cmd pa s =
      ask_int Wire.VfsOp.fcntl_int_op (value dir_in (sext fd) (sext cmd) (sext pa) ∷ []) s

  -- The result passes through an `int`; where `t` is given its low 32 bits are written.
  unfoldable pub syscall_vfs_time : Bool → S → (ℕ × Option ℕ) × S
  unfolding ask_int
  syscall_vfs_time given s =
      let (ret, s') = ask_int Wire.VfsOp.time_op [] s in
      ((sext ret, if given then some ret else none), s')

  unfoldable pub syscall_vfs_usleep : ℕ → S → S
  unfolding request
  syscall_vfs_usleep usec s = (request Wire.VfsOp.usleep_op (value dir_in usec 0 0 ∷ []) s).1

  unfoldable pub syscall_vfs_filesize : ℕ → S → ℕ × S
  unfolding ask_long
  syscall_vfs_filesize fd s = ask_long Wire.VfsOp.filesize_op (value dir_in (sext fd) 0 0 ∷ []) s
