-- ===== src/Lib.antt =====
-- SQLite in a trusted application on files of the normal world.
--
-- A trusted application runs SQLite with a VFS of its own (optee_examples/tee_sqilte/ta/tee_vfs.c).
-- Its file operations are system calls of the secure kernel (optee_os/core/tee/tee_sqlite.c), which
-- sends each as a remote request to the daemon tee-supplicant of the normal world
-- (optee_client/tee-supplicant/tee_supplicant.c). The supplicant keeps a list of shared memory,
-- finds there the buffers that a request refers to, and calls the C library. The pages of a database
-- are encrypted in the trusted application (optee_examples/tee_sqilte/ta/codec.c), which keeps their tags
-- in a hash map and the map in a file. A program of the host (optee_examples/tee_sqilte/host/main.c)
-- invokes the trusted application's one command (optee_examples/tee_sqilte/ta/tee_sqlite.c).
--
-- The files:
-- - Prelude: names and lemmas that all share; Prelude/Words has machine words as bit patterns.
-- - Wire: the operation codes of optee_client/tee-supplicant/optee_msg_supplicant.h and of
--   optee_os/core/include/vfs.h, the parameters of a request and its results.
-- - Shm: the supplicant's list of shared memory (struct tee_shm, find_tshm, pop_tshm, push_tshm).
--   Shm/Param has get_value, get_param and tee_supp_param_to_va, Shm/Alloc has alloc_shm,
--   register_local_shm, process_alloc and process_free; Shm/Bounds, Shm/Order and Shm/Balance prove
--   memory safety, the list's laws and the balance of resources.
-- - Vfs: the supplicant's handlers, vfs_open to vfs_filesize, by their names, in Vfs/Files, Vfs/Paths
--   and Vfs/Process, over the C library of Vfs/Libc; Vfs/Dispatch has tee_supp_vfs_process. Vfs/Frame
--   proves what a request may change.
-- - Core: the system calls syscall_vfs_*, by their names, in Core/Values, Core/Paths and
--   Core/Buffers. Core/Leaks follows the payloads; Core/Link states
--   what lies between a call and the supplicant, and Core/Reach, Core/PathReach and Core/BufferReach
--   lead a call through the supplicant to the C library and back.
-- - TaVfs: the methods of an open file of tee_vfs.c (demoClose, demoRead, demoSync, demoFileSize;
--   demoWrite in TaVfs/Write). TaVfs/Overlay, TaVfs/Buffer, TaVfs/Contents, TaVfs/Rounds and TaVfs/Read
--   prove that the write buffer is transparent; TaVfs/Durable is on the calls that end a write, and
--   TaVfs/Calls, TaVfs/Steps and TaVfs/Sessions are on calls in any order.
--   TaVfs/Names has the methods that take a name (demoOpen, demoDelete, demoAccess,
--   demoFullPathname, demoSleep), TaVfs/Opened and TaVfs/Deleted their proofs.
-- - Loop: the supplicant's request loop. Loop/Params has find_params; Loop/Threads has the threads
--   that take requests (thread_main, process_one_request, spawn_thread, num_waiters_inc,
--   num_waiters_dec) as steps that interleave, and Loop/Waiters proves what the count is for;
--   Loop/Serve has the choice of an operation in process_one_request, over sessions of requests;
--   Loop/Requests has one thread from a request to its response (read_request, write_response,
--   process_one_request and the loop around it), which Loop/Answered is on;
--   Loop/Load has load_ta and process_rpmb, and Loop/Device the search for the device (get_dev_fd).
--   Loop/TaPath has set_ta_path, with its proof in Loop/Directories, and Loop/Setup main up to its
--   loop, with its options, and make_daemon, whose two processes Loop/Daemon compares.
-- - HashMap: the hash map of optee_examples/tee_sqilte/ta/hashmap.c, HashMap/Items its lists,
--   HashMap/Table its array (next_size, hm_create, hm_rehash) and HashMap/Maps its operations, and
--   HashMap/Clear has hm_clear and hm_delete, HashMap/Dump has hm_print and hm_dump; HashMap/Buckets,
--   HashMap/Rehash, HashMap/Growth, HashMap/Steady, HashMap/Update, HashMap/Removal, HashMap/ZeroKey,
--   HashMap/Lookup and HashMap/Sizes have the proofs.
-- - Codec: the page codec of optee_examples/tee_sqilte/ta/codec.c, Codec/Pages its CodecEncrypt and
--   CodecDecrypt with the map of tags; Codec/Bytes, Codec/Sealed, Codec/RoundTrip, Codec/Header and
--   Codec/Alias have their proofs. Codec/Keys (sqlite3Codec, sqlite3CodecAttach) and Codec/Rewrite
--   (sqlite3_rekey_v2) are codecext.c; Codec/Rekey, Codec/Written, Codec/Attach and Codec/Journal have
--   the proofs. CodecEncrypt keeps pointers to its locals in the map, so their addresses are part of
--   the model (Codec.Pages.Frame); no theorem relies on what these locals hold after its return. Codec/TagFile has createMap and closeMap, which keep the tags in a
--   file; Codec/TagLaws says what they rely on, Codec/TagEntries what is in the file, Codec/TagSaved is
--   on closeMap, Codec/TagTaken and Codec/TagLoaded on the loop of createMap, Codec/TagRestore on both.
--   Codec/Handles has reset, with the operations and keys of the TEE that Codec/Operations follows.
-- - Stack: the calls utee_vfs_* of tee_vfs.c as system calls of the secure kernel, by the stubs of
--   optee_os/lib/libutee/include/utee_syscalls_asm.S; Stack/Laws says what the whole way relies on,
--   Stack/Files leads lseek and write through it, Stack/Reads read, Stack/Syncs fsync, and
--   Stack/Sessions demoWrite, demoRead and demoSync in any order.
-- - App: the entry points of the trusted application, optee_examples/tee_sqilte/ta/tee_sqlite.c.
--   App/Steps takes exec apart, App/Counts and App/Balance count connections, App/Ran is on the
--   statements that SQLite executes.
-- - Host: main of optee_examples/tee_sqilte/host/main.c, with the trusted application behind the client
--   API; Host/Select and Host/Ran have the proofs.
-- - Scall: the system calls of a trusted application in optee_os/core/kernel/scall.c, by the numbers
--   of optee_os/lib/libutee/include/tee_syscall_numbers.h; Scall/Dispatch is on the table, and
--   Scall/Ldelf has the one of ldelf.
--
-- State is passed explicitly, and an early return is a chain of Option. Numbers are native: an `int`
-- is a bit pattern below 2 ^ 32 and a 64-bit word one below 2 ^ 64, with the sign extension and the
-- truncation of each conversion written out; a pointer is an address, and NULL is 0. The bytes of a
-- buffer are a list; a C string is the list of its bytes without the NUL.
--
-- The loop of demoWrite has fuel: one more than there are bytes. Each round copies at least one
-- byte, since the buffer has room after the flush at the round's head, so this is enough. The loop of
-- createMap recurs on the elements of its arrays that are left, of 100, and has no result past them.
-- The first loop of set_ta_path has one more than there are bytes, since each token takes one at least,
-- and the second recurs on what is left of the array that it fills.
--
-- Parameters of the model are what the repository does not hold: the C library (Vfs.Libc.Libc), the
-- answers of the kernel to an allocation (Shm.Alloc.Answers), the secure kernel's remote procedure
-- calls (Core.Rpc), what lies between them and the supplicant (Core.Link.IsConnected), the calls
-- that the trusted application makes (TaVfs.Utee and TaVfs.Names.Paths), AES-GCM of the TEE
-- (Codec.Ae) and its handles (Codec.Handles.Crypto), what SQLite's B-trees and pagers answer
-- (Codec.Rewrite.Answers), SQLite itself (App.Sqlite, App.Connections), the internal and the client
-- API of the TEE (App.Tee, Host.Teec), the device, the loader and the process of the supplicant
-- (Loop.Device.Devices, Loop.Load.Modules, Loop.Setup.Answers), the sizes of the kernel's structures
-- (Loop.Requests.Sizes), and the numbers of ldelf's return and panic (Scall.Ldelf.LdelfNumbers). What
-- is assumed of them is a record of laws that the theorem takes, with an instance in the component's
-- Tests.
--
-- Not modelled: demoCurrentTime, which is floating point, and the methods of tee_vfs.c without an
-- effect; usage of the supplicant and the entry points of the trusted application that only log; the
-- tracing of system calls; CodecWriteTag, CodecGetTag and CodecGetPageBuffer, which copy or point to a
-- field, and the branches of codec.c for another cipher, which are not compiled; the host's copy of
-- SQLite's example VFS (optee_examples/tee_sqilte/host/demovfs.c); the copies of SQLite's header;
-- messages, also where they print NULL; what TEE_Free does with an address that TEE_Malloc did not
-- give, where the model notes the address and goes on; the copy of syscall_vfs_fcntl_flock to the
-- address that is not set where it has no payload, after which the model does nothing.
-- Offsets in tee_vfs.c are numbers without a bound.
pub mod Prelude
pub mod Wire
pub mod Shm
pub mod Vfs
pub mod Codec
pub mod Scall
pub mod Core
pub mod HashMap
pub mod App
pub mod Host
pub mod Loop
pub mod TaVfs
pub mod Stack
