-- ===== src/Core/Leaks.antt =====
-- No system call of optee_os/core/tee/tee_sqlite.c leaks a payload.
use tee_sqlite.Prelude.{ℕ, ◌+◌, ◌≡◌, ◌≤◌, List, none, some, Bool}
use tee_sqlite.Core.{Mobj, ThreadParam, Rpc}
use tee_sqlite.Core.Values.{
  syscall_vfs_close, syscall_vfs_ftruncate, syscall_vfs_fchmod, syscall_vfs_fchown,
  syscall_vfs_geteuid, syscall_vfs_getpid, syscall_vfs_lseek, syscall_vfs_fsync, syscall_vfs_sleep,
  syscall_vfs_fcntl_void, syscall_vfs_fcntl_int, syscall_vfs_time, syscall_vfs_usleep,
  syscall_vfs_filesize,
}
use tee_sqlite.Core.Paths.{
  syscall_vfs_open, syscall_vfs_access, syscall_vfs_mkdir, syscall_vfs_rmdir, syscall_vfs_truncate,
  syscall_vfs_unlink,
}
use tee_sqlite.Core.Buffers.{
  syscall_vfs_write, syscall_vfs_pwrite, syscall_vfs_read, syscall_vfs_pread, syscall_vfs_getcwd,
  syscall_vfs_fstat, syscall_vfs_stat, syscall_vfs_gettimeofday, syscall_vfs_utimes,
  syscall_vfs_getenv, syscall_vfs_fcntl_flock,
}

-- A system call with its arguments.
pub data Syscall : Type 0 where
  open_call : (path : List ℕ) → (oflag : ℕ) → (arg1 : ℕ) → Syscall
  close_call : (fd : ℕ) → Syscall
  access_call : (path : List ℕ) → (type : ℕ) → Syscall
  getcwd_call : (size : ℕ) → Syscall
  stat_call : (n : ℕ) → (file_name : List ℕ) → Syscall
  write_call : (fd : ℕ) → (buf : List ℕ) → Syscall
  read_call : (fd : ℕ) → (n : ℕ) → Syscall
  fchmod_call : (fd : ℕ) → (mode : ℕ) → Syscall
  fchown_call : (fd : ℕ) → (owner : ℕ) → (group : ℕ) → Syscall
  mkdir_call : (path : List ℕ) → (mode : ℕ) → Syscall
  rmdir_call : (path : List ℕ) → Syscall
  unlink_call : (path : List ℕ) → Syscall
  ftruncate_call : (fd : ℕ) → (size : ℕ) → Syscall
  geteuid_call : Syscall
  getpid_call : Syscall
  getenv_call : (name : List ℕ) → Syscall
  lseek_call : (fd : ℕ) → (offset : ℕ) → (whence : ℕ) → Syscall
  fsync_call : (fd : ℕ) → Syscall
  sleep_call : (seconds : ℕ) → Syscall
  pread_call : (fd : ℕ) → (n : ℕ) → (offset : ℕ) → Syscall
  gettimeofday_call : (n : ℕ) → (k : ℕ) → (tz_given : Bool) → Syscall
  pwrite_call : (fd : ℕ) → (buf : List ℕ) → (offset : ℕ) → Syscall
  truncate_call : (path : List ℕ) → (size : ℕ) → Syscall
  fstat_call : (n : ℕ) → (fd : ℕ) → Syscall
  fcntl_void_call : (fd : ℕ) → (cmd : ℕ) → Syscall
  fcntl_int_call : (fd : ℕ) → (cmd : ℕ) → (pa : ℕ) → Syscall
  fcntl_flock_call : (n : ℕ) → (fd : ℕ) → (cmd : ℕ) → Syscall
  utimes_call : (filename : List ℕ) → (times : List ℕ) → Syscall
  time_call : (given : Bool) → Syscall
  usleep_call : (usec : ℕ) → Syscall
  filesize_call : (fd : ℕ) → Syscall

-- The payloads that are allocated, by what the secure kernel documents of the calls: an allocation
-- that succeeds adds one, freeing it takes it away, freeing NULL does nothing, and neither the copies
-- nor a request allocates or frees.
pub record IsCounting {S : Type 0} (rpc : Rpc S) (live : S → ℕ) : Type 0 where
  pub alloc_some :
      (n : ℕ) (s : S) (m : Mobj)
      → (rpc.alloc_payload n s).0 ≡ some m
      → live (rpc.alloc_payload n s).1 ≡ live s + 1
  pub alloc_none :
      (n : ℕ) (s : S) → (rpc.alloc_payload n s).0 ≡ none → live (rpc.alloc_payload n s).1 ≡ live s
  pub write_same : (m : Mobj) (bs : List ℕ) (s : S) → live (rpc.write_va m bs s) ≡ live s
  pub cmd_same : (ps : List ThreadParam) (s : S) → live (rpc.cmd ps s).1 ≡ live s
  pub free_some :
      (m : Mobj) (s : S) (k : ℕ) → live s ≡ k + 1 → live (rpc.free_payload (some m) s) ≡ k
  pub free_none : (s : S) → live (rpc.free_payload none s) ≡ live s

module _ {S : Type 0} (rpc : Rpc S) where
  -- The state that a system call leaves.
  unfoldable pub state_after : Syscall → S → S
  state_after (open_call path oflag arg1) s = (syscall_vfs_open rpc path oflag arg1 s).1
  state_after (close_call fd) s = (syscall_vfs_close rpc fd s).1
  state_after (access_call path type) s = (syscall_vfs_access rpc path type s).1
  state_after (getcwd_call size) s = (syscall_vfs_getcwd rpc size s).1
  state_after (stat_call n file_name) s = (syscall_vfs_stat rpc n file_name s).1
  state_after (write_call fd buf) s = (syscall_vfs_write rpc fd buf s).1
  state_after (read_call fd n) s = (syscall_vfs_read rpc fd n s).1
  state_after (fchmod_call fd mode) s = (syscall_vfs_fchmod rpc fd mode s).1
  state_after (fchown_call fd owner group) s = (syscall_vfs_fchown rpc fd owner group s).1
  state_after (mkdir_call path mode) s = (syscall_vfs_mkdir rpc path mode s).1
  state_after (rmdir_call path) s = (syscall_vfs_rmdir rpc path s).1
  state_after (unlink_call path) s = (syscall_vfs_unlink rpc path s).1
  state_after (ftruncate_call fd size) s = (syscall_vfs_ftruncate rpc fd size s).1
  state_after geteuid_call s = (syscall_vfs_geteuid rpc s).1
  state_after getpid_call s = (syscall_vfs_getpid rpc s).1
  state_after (getenv_call name) s = (syscall_vfs_getenv rpc name s).1
  state_after (lseek_call fd offset whence) s = (syscall_vfs_lseek rpc fd offset whence s).1
  state_after (fsync_call fd) s = (syscall_vfs_fsync rpc fd s).1
  state_after (sleep_call seconds) s = (syscall_vfs_sleep rpc seconds s).1
  state_after (pread_call fd n offset) s = (syscall_vfs_pread rpc fd n offset s).1
  state_after (gettimeofday_call n k tz_given) s = (syscall_vfs_gettimeofday rpc n k tz_given s).1
  state_after (pwrite_call fd buf offset) s = (syscall_vfs_pwrite rpc fd buf offset s).1
  state_after (truncate_call path size) s = (syscall_vfs_truncate rpc path size s).1
  state_after (fstat_call n fd) s = (syscall_vfs_fstat rpc n fd s).1
  state_after (fcntl_void_call fd cmd) s = (syscall_vfs_fcntl_void rpc fd cmd s).1
  state_after (fcntl_int_call fd cmd pa) s = (syscall_vfs_fcntl_int rpc fd cmd pa s).1
  state_after (fcntl_flock_call n fd cmd) s = (syscall_vfs_fcntl_flock rpc n fd cmd s).1
  state_after (utimes_call filename times) s = (syscall_vfs_utimes rpc filename times s).1
  state_after (time_call given) s = (syscall_vfs_time rpc given s).1
  state_after (usleep_call usec) s = syscall_vfs_usleep rpc usec s
  state_after (filesize_call fd) s = (syscall_vfs_filesize rpc fd s).1

  -- A payload is there and large enough.
  pub record HasPayload (n : ℕ) (s : S) : Type 0 where
    pub mobj : Mobj
    pub there : (rpc.alloc_payload n s).0 ≡ some mobj
    pub fits : n ≤ mobj.size

  -- What a system call does is defined.
  abbrev pub IsDefined : Syscall → S → Type 0
  IsDefined (fcntl_flock_call n fd cmd) s = HasPayload n s
  IsDefined _ s = Unit {0}
