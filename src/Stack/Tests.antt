-- ===== src/Stack/Tests.antt =====
-- Calls from optee_examples/tee_sqilte/ta/tee_vfs.c to the C library of
-- optee_client/tee-supplicant/tee_supplicant.c, in a small world of both sides.
use tee_sqlite.Prelude.{ℕ, sext, ◌≡◌, refl, List, [], ◌∷◌, Option, none, some, arith, inl}
use tee_sqlite.Wire.{decode}
use tee_sqlite.Shm.{find_tshm}
use tee_sqlite.Vfs.Dispatch.{tee_supp_vfs_process}
use tee_sqlite.Core.{with_payload}
use tee_sqlite.TaVfs.{sqlite_ok, demo_read, demo_sync, flush_buffer, direct_write, read_result}
use tee_sqlite.TaVfs.Overlay.{overlay}
use tee_sqlite.TaVfs.Write.{demo_write, Written, returned}
use tee_sqlite.TaVfs.Sessions.{FileCall, writes, reads, syncs, Behaves}
use tee_sqlite.Stack.Sessions.{seen_content, seen_durable, seen_pos, core_utee-Behaves}
use tee_sqlite.Stack.{core_utee}
use tee_sqlite.Core.Values.{syscall_vfs_lseek, syscall_vfs_fsync, ask_int}
use tee_sqlite.Core.Buffers.{syscall_vfs_read, syscall_vfs_write, fetch}
use tee_sqlite.Vfs.Files.{vfs_lseek, vfs_write, vfs_read, vfs_fsync}
use tee_sqlite.TaVfs.Contents.{logical}
use tee_sqlite.Stack.World.{
  content, pos, bytes_at, os, World, link, rpc, rpc-IsConnected, os-IsPosix, rpc-IsSharing, journal,
  start, os-IsPosixRead, read_payload, os-IsPosixSync, os-KeepsContent, database,
}

demo_sync-journal : (demo_sync (core_utee rpc []) journal start).0 ≡ sqlite_ok
unfolding demo_sync flush_buffer direct_write core_utee syscall_vfs_lseek syscall_vfs_write
    syscall_vfs_fsync tee_supp_vfs_process decode with_payload vfs_lseek vfs_write vfs_fsync sext
    ask_int find_tshm
demo_sync-journal = refl

-- Bytes 1 to 4 of the file, where bytes 2 and 3 are pending.
demo_read-journal :
    ((demo_read (core_utee rpc []) journal 4 1 start).0 ≡ sqlite_ok)
    × ((demo_read (core_utee rpc []) journal 4 1 start).1 ≡ some (6 ∷ 8 ∷ 9 ∷ 9 ∷ []))
unfolding demo_read flush_buffer direct_write read_result overlay core_utee syscall_vfs_read
    syscall_vfs_lseek syscall_vfs_write tee_supp_vfs_process decode with_payload vfs_lseek vfs_write
    vfs_read sext ask_int fetch find_tshm
demo_read-journal = (refl, refl)

abbrev read_after : Written World → Option (List ℕ)
read_after (returned rc p s) = (demo_read (core_utee rpc []) p 4 6 s).1
read_after _ = none

-- Bytes 6 to 9, of which 7 and 8 were written.
read_after-demo_write :
    read_after (demo_write (core_utee rpc []) database (4 ∷ 3 ∷ []) 7 start)
    ≡ some (11 ∷ 4 ∷ 3 ∷ 14 ∷ [])
unfolding demo_write demo_read flush_buffer direct_write read_result overlay core_utee
    syscall_vfs_read syscall_vfs_lseek syscall_vfs_write tee_supp_vfs_process decode with_payload
    vfs_lseek vfs_write vfs_read sext ask_int fetch find_tshm
read_after-demo_write = refl

abbrev session : List FileCall
session = writes (4 ∷ 3 ∷ []) 7 ∷ syncs ∷ reads 4 6 ∷ writes (1 ∷ []) 8 ∷ reads 2 8 ∷ []

core_utee-Behaves_example :
    Behaves
      (core_utee rpc [])
      (seen_content rpc os link rpc-IsConnected [] content pos bytes_at rpc-IsSharing
        (λ w. w.synced))
      (seen_durable rpc os link rpc-IsConnected [] content pos bytes_at rpc-IsSharing
        (λ w. w.synced))
      (seen_pos rpc os link rpc-IsConnected [] content pos bytes_at rpc-IsSharing (λ w. w.synced))
      session
      database
      start
      (logical
        (core_utee rpc [])
        (seen_content rpc os link rpc-IsConnected [] content pos bytes_at rpc-IsSharing
          (λ w. w.synced))
        (seen_pos rpc os link rpc-IsConnected [] content pos bytes_at rpc-IsSharing (λ w. w.synced))
        database
        start)
core_utee-Behaves_example =
    core_utee-Behaves rpc os link rpc-IsConnected [] content pos bytes_at rpc-IsSharing
      (λ w. w.synced) session database start (omega arith) os-IsPosix os-IsPosixRead os-IsPosixSync
      os-KeepsContent read_payload (inl (refl, refl)) (omega arith, (omega arith, tt))
