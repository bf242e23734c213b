-- ===== src/Wire.antt =====
-- What the secure world and the supplicant exchange: the operation codes of
-- optee_msg_supplicant.h and of vfs.h, and the parameters of a request as the supplicant sees them.
-- The layout of `struct tee_ioctl_param` (attr, a, b, c; a memory reference has its offset in a, its
-- size in b and its buffer's identifier in c) is that of Linux's tee.h, which the supplicant reads
-- by MEMREF_SHM_OFFS, MEMREF_SIZE and MEMREF_SHM_ID.
use tee_sqlite.Prelude.{ℕ, Bool, List, [], ◌∷◌, Option, none, some, ◌==◌, if◌then◌else◌}

-- The operations behind OPTEE_VFS_*.
pub data VfsOp : Type 0 where
  open_op close_op access_op getcwd_op stat_op write_op read_op fchmod_op fchown_op mkdir_op : VfsOp
  rmdir_op unlink_op ftruncate_op geteuid_op getpid_op getenv_op lseek_op fsync_op : VfsOp
  sleep_op pread_op gettimeofday_op pwrite_op truncate_op fstat_op fcntl_void_op : VfsOp
  fcntl_int_op fcntl_flock_op utimes_op time_op usleep_op filesize_op : VfsOp

-- The codes of optee_msg_supplicant.h.
unfoldable pub supplicant_code : VfsOp → ℕ
supplicant_code open_op = 0
supplicant_code close_op = 1
supplicant_code access_op = 2
supplicant_code getcwd_op = 3
supplicant_code stat_op = 4
supplicant_code write_op = 5
supplicant_code read_op = 6
supplicant_code fchmod_op = 7
supplicant_code fchown_op = 8
supplicant_code mkdir_op = 9
supplicant_code rmdir_op = 10
supplicant_code unlink_op = 11
supplicant_code ftruncate_op = 12
supplicant_code geteuid_op = 13
supplicant_code getpid_op = 14
supplicant_code getenv_op = 15
supplicant_code lseek_op = 16
supplicant_code fsync_op = 17
supplicant_code sleep_op = 18
supplicant_code pread_op = 19
supplicant_code gettimeofday_op = 20
supplicant_code pwrite_op = 21
supplicant_code truncate_op = 22
supplicant_code fstat_op = 23
supplicant_code fcntl_void_op = 24
supplicant_code fcntl_int_op = 25
supplicant_code fcntl_flock_op = 26
supplicant_code utimes_op = 27
supplicant_code time_op = 28
supplicant_code usleep_op = 29
supplicant_code filesize_op = 30

-- The codes of vfs.h, which the secure kernel sends.
unfoldable pub core_code : VfsOp → ℕ
core_code open_op = 0
core_code close_op = 1
core_code access_op = 2
core_code getcwd_op = 3
core_code stat_op = 4
core_code write_op = 5
core_code read_op = 6
core_code fchmod_op = 7
core_code fchown_op = 8
core_code mkdir_op = 9
core_code rmdir_op = 10
core_code unlink_op = 11
core_code ftruncate_op = 12
core_code geteuid_op = 13
core_code getpid_op = 14
core_code getenv_op = 15
core_code lseek_op = 16
core_code fsync_op = 17
core_code sleep_op = 18
core_code pread_op = 19
core_code gettimeofday_op = 20
core_code pwrite_op = 21
core_code truncate_op = 22
core_code fstat_op = 23
core_code fcntl_void_op = 24
core_code fcntl_int_op = 25
core_code fcntl_flock_op = 26
core_code utimes_op = 27
core_code time_op = 28
core_code usleep_op = 29
core_code filesize_op = 30

-- The cases of the supplicant's switch, in its order.
abbrev pub cases : List VfsOp
cases =
    open_op ∷ close_op ∷ access_op ∷ getcwd_op ∷ stat_op ∷ write_op ∷ mkdir_op ∷ rmdir_op
    ∷ unlink_op ∷ ftruncate_op ∷ read_op ∷ fchmod_op ∷ fchown_op ∷ geteuid_op ∷ getpid_op
    ∷ getenv_op ∷ lseek_op ∷ fsync_op ∷ sleep_op ∷ gettimeofday_op ∷ pwrite_op ∷ pread_op
    ∷ truncate_op ∷ fstat_op ∷ fcntl_void_op ∷ fcntl_int_op ∷ fcntl_flock_op ∷ utimes_op ∷ time_op
    ∷ usleep_op ∷ filesize_op ∷ []

-- The first case whose code is `cmd`.
unfoldable pub select : ℕ → List VfsOp → Option VfsOp
unfolding supplicant_code
select cmd [] = none
select cmd (op ∷ ops) = if supplicant_code op == cmd then some op else select cmd ops

unfoldable pub decode : ℕ → Option VfsOp
unfolding select
decode cmd = select cmd cases

-- `attr & TEE_IOCTL_PARAM_ATTR_TYPE_MASK`; `other` is any value that no case names.
pub data ParamType : Type 0 where
  none_type value_input value_output value_inout : ParamType
  memref_input memref_output memref_inout other : ParamType

-- `struct tee_ioctl_param`; `meta` is the bit TEE_IOCTL_PARAM_ATTR_META.
pub record Param : Type 0 where
  pub meta : Bool
  pub type : ParamType
  pub a : ℕ
  pub b : ℕ
  pub c : ℕ

abbrev pub memref_offs : Param → ℕ
memref_offs p = p.a

abbrev pub memref_size : Param → ℕ
memref_size p = p.b

abbrev pub memref_shm_id : Param → ℕ
memref_shm_id p = p.c

-- The results of a request, TEEC_*.
pub data TeecResult : Type 0 where
  success bad_parameters bad_format short_buffer not_supported : TeecResult
  item_not_found out_of_memory : TeecResult
