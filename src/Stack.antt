-- ===== src/Stack.antt =====
-- The calls utee_vfs_* of the SQLite VFS, optee_examples/tee_sqilte/ta/tee_vfs.c, as the system calls that
-- the stubs of optee_os/lib/libutee/include/utee_syscalls_asm.S make: those of
-- optee_os/core/tee/tee_sqlite.c, and behind them the supplicant of
-- optee_client/tee-supplicant/tee_supplicant.c with its C library.
pub mod Laws
pub mod Files
pub mod Reads
pub mod Syncs
pub mod Sessions
mod World
mod Tests
use tee_sqlite.Prelude.{ℕ, List, Option, none, some}
use tee_sqlite.Core.{Rpc}
use tee_sqlite.Core.Values.{
  syscall_vfs_lseek, syscall_vfs_fsync, syscall_vfs_close, syscall_vfs_filesize,
}
use tee_sqlite.Core.Buffers.{syscall_vfs_write, syscall_vfs_read}
use tee_sqlite.TaVfs.{Utee}

-- SEEK_SET.
abbrev pub seek_set : ℕ
seek_set = 0

abbrev pub filled_by : List ℕ → Option (List ℕ) → List ℕ
filled_by untouched none = untouched
filled_by untouched (some bs) = bs

-- `untouched` is what the buffer of a read holds where the call does not write to it.
unfoldable pub core_utee : {S : Type 0} → Rpc S → List ℕ → Utee S
core_utee rpc untouched = record {
  lseek = λ fd o s. syscall_vfs_lseek rpc fd o seek_set s;
  write = λ fd bs s. syscall_vfs_write rpc fd bs s;
  read = λ fd n s.
      let (result, s') = syscall_vfs_read rpc fd n s in
      (result.0, filled_by untouched result.1, s');
  fsync = λ fd s. syscall_vfs_fsync rpc fd s;
  close = λ fd s. (syscall_vfs_close rpc fd s).1;
  filesize = λ fd s. syscall_vfs_filesize rpc fd s;
}
