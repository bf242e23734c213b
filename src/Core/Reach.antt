-- ===== src/Core/Reach.antt =====
-- From a system call of optee_os/core/tee/tee_sqlite.c on values through the supplicant's handlers of
-- optee_client/tee-supplicant/tee_supplicant.c to the C library, and back.
use tee_sqlite.Prelude.{
  ℕ, suc, ◌≡◌, ◌<◌, ◌^◌, refl, ◌∙◌, List, [], ◌∷◌, false, length, low32, sext, low32-sext,
  low32_self,
}
use tee_sqlite.Wire.{Param, VfsOp, TeecResult, core_code, value_input, value_inout}
use tee_sqlite.Vfs.Libc.{Libc, Call, reply}
use tee_sqlite.Vfs.Dispatch.{process-handler, handler, tee_supp_vfs_process}
use tee_sqlite.Vfs.Files.{
  vfs_close, vfs_ftruncate, vfs_fchmod, vfs_fchown, vfs_lseek, vfs_fsync, vfs_fcntl_void,
  vfs_fcntl_int,
}
use tee_sqlite.Vfs.Process.{vfs_geteuid, vfs_getpid, vfs_sleep}
use tee_sqlite.Core.{dir_in, dir_inout, ThreadParam, value, Rpc}
use tee_sqlite.Core.Values.{
  ask_int, ask_long, syscall_vfs_close, syscall_vfs_ftruncate, syscall_vfs_fchmod,
  syscall_vfs_fchown, syscall_vfs_geteuid, syscall_vfs_getpid, syscall_vfs_lseek, syscall_vfs_fsync,
  syscall_vfs_sleep, syscall_vfs_fcntl_void, syscall_vfs_fcntl_int,
}
use tee_sqlite.Core.Link.{Link, IsConnected, encode_all, decode-core_code}

-- The system calls whose parameters are values and that are a call of the C library.
pub data ValueCall : Type 0 where
  close_value fsync_value : (fd : ℕ) → ValueCall
  ftruncate_value : (fd size : ℕ) → ValueCall
  fchmod_value : (fd mode : ℕ) → ValueCall
  fchown_value : (fd owner group : ℕ) → ValueCall
  geteuid_value getpid_value : ValueCall
  lseek_value : (fd offset whence : ℕ) → ValueCall
  sleep_value : (seconds : ℕ) → ValueCall
  fcntl_void_value : (fd cmd : ℕ) → ValueCall
  fcntl_int_value : (fd cmd pa : ℕ) → ValueCall

-- The call that is meant.
unfoldable pub direct : ValueCall → Call
direct (close_value fd) = Call.close fd
direct (fsync_value fd) = Call.fsync fd
direct (ftruncate_value fd size) = Call.ftruncate fd size
direct (fchmod_value fd mode) = Call.fchmod fd mode
direct (fchown_value fd owner group) = Call.fchown fd owner group
direct geteuid_value = Call.geteuid
direct getpid_value = Call.getpid
direct (lseek_value fd offset whence) = Call.lseek fd offset whence
direct (sleep_value seconds) = Call.sleep seconds
direct (fcntl_void_value fd cmd) = Call.fcntl_void fd cmd
direct (fcntl_int_value fd cmd pa) = Call.fcntl_int fd cmd pa

-- The arguments of 32 bits are words of 32 bits.
abbrev pub InRange : ValueCall → Type 0
InRange (close_value fd) = fd < 2 ^ 32
InRange (fsync_value fd) = fd < 2 ^ 32
InRange (ftruncate_value fd size) = fd < 2 ^ 32
InRange (fchmod_value fd mode) = (fd < 2 ^ 32) × (mode < 2 ^ 32)
InRange (fchown_value fd owner group) = (fd < 2 ^ 32) × (owner < 2 ^ 32) × (group < 2 ^ 32)
InRange geteuid_value = Unit {0}
InRange getpid_value = Unit {0}
InRange (lseek_value fd offset whence) = (fd < 2 ^ 32) × (whence < 2 ^ 32)
InRange (sleep_value seconds) = seconds < 2 ^ 32
InRange (fcntl_void_value fd cmd) = (fd < 2 ^ 32) × (cmd < 2 ^ 32)
InRange (fcntl_int_value fd cmd pa) = (fd < 2 ^ 32) × (cmd < 2 ^ 32) × (pa < 2 ^ 32)

-- So is a result, but that of lseek.
abbrev pub Fits : ValueCall → ℕ → Type 0
Fits (lseek_value fd offset whence) r = Unit {0}
Fits _ r = r < 2 ^ 32

-- The parameters as the supplicant sees them.
abbrev pub inout_value : ℕ → Param
inout_value a = record { meta = false; type = value_inout; a = a; b = 0; c = 0 }

abbrev pub in_value : ℕ → ℕ → ℕ → Param
in_value a b c = record { meta = false; type = value_input; a = a; b = b; c = c }

module _ {S W : Type 0} (rpc : Rpc S) (os : Libc W) (link : Link S W) where
  -- The system call of the trusted application.
  unfoldable pub issue : ValueCall → S → ℕ × S
  issue (close_value fd) = syscall_vfs_close rpc fd
  issue (fsync_value fd) = syscall_vfs_fsync rpc fd
  issue (ftruncate_value fd size) = syscall_vfs_ftruncate rpc fd size
  issue (fchmod_value fd mode) = syscall_vfs_fchmod rpc fd mode
  issue (fchown_value fd owner group) = syscall_vfs_fchown rpc fd owner group
  issue geteuid_value = syscall_vfs_geteuid rpc
  issue getpid_value = syscall_vfs_getpid rpc
  issue (lseek_value fd offset whence) = syscall_vfs_lseek rpc fd offset whence
  issue (sleep_value seconds) = syscall_vfs_sleep rpc seconds
  issue (fcntl_void_value fd cmd) = syscall_vfs_fcntl_void rpc fd cmd
  issue (fcntl_int_value fd cmd pa) = syscall_vfs_fcntl_int rpc fd cmd pa

  module _ (connected : IsConnected rpc os link) where
    pub ask_int-answered :
        (op : VfsOp) (rest : List ThreadParam) (s : S) (r : TeecResult) (q : Param)
        (qs : List Param) (w : W)
        → tee_supp_vfs_process os
            (suc (length rest))
            (encode_all link (value dir_inout (core_code op) 0 0 ∷ rest))
            (link.shms s)
            (link.world s)
          ≡ reply r (q ∷ qs) w
        → ask_int rpc op rest s ≡ (low32 q.b, link.with_world w s)
    unfolding ask_int
    ask_int-answered op rest s r q qs w h =
        rw (connected.answered (core_code op) 0 0 rest s r q qs w h)

    pub ask_long-answered :
        (op : VfsOp) (rest : List ThreadParam) (s : S) (r : TeecResult) (q : Param)
        (qs : List Param) (w : W)
        → tee_supp_vfs_process os
            (suc (length rest))
            (encode_all link (value dir_inout (core_code op) 0 0 ∷ rest))
            (link.shms s)
            (link.world s)
          ≡ reply r (q ∷ qs) w
        → ask_long rpc op rest s ≡ (q.b, link.with_world w s)
    unfolding ask_long
    ask_long-answered op rest s r q qs w h =
        rw (connected.answered (core_code op) 0 0 rest s r q qs w h)

    -- The requests of one value: what the handler replies comes back.
    one_value :
        (op : VfsOp) (a b c : ℕ) (s : S) {r : TeecResult} {q : Param} {qs : List Param} {w : W}
        → handler os op 2
            (inout_value (core_code op) ∷ in_value a b c ∷ [])
            (link.shms s)
            (link.world s)
          ≡ reply r (q ∷ qs) w
        → ask_int rpc op (value dir_in a b c ∷ []) s ≡ (low32 q.b, link.with_world w s)
    one_value op a b c s {r} {q} {qs} {w} h = ask_int-answered op _ s r q qs w (
        rw (connected.encode_value, connected.encode_value)
          (process-handler os op 2 _ _ _ _ (decode-core_code op) ∙ h))

    long_value :
        (op : VfsOp) (a b c : ℕ) (s : S) {r : TeecResult} {q : Param} {qs : List Param} {w : W}
        → handler os op 2
            (inout_value (core_code op) ∷ in_value a b c ∷ [])
            (link.shms s)
            (link.world s)
          ≡ reply r (q ∷ qs) w
        → ask_long rpc op (value dir_in a b c ∷ []) s ≡ (q.b, link.with_world w s)
    long_value op a b c s {r} {q} {qs} {w} h = ask_long-answered op _ s r q qs w (
        rw (connected.encode_value, connected.encode_value)
          (process-handler os op 2 _ _ _ _ (decode-core_code op) ∙ h))

    no_value :
        (op : VfsOp) (s : S) {r : TeecResult} {q : Param} {qs : List Param} {w : W}
        → handler os op 1 (inout_value (core_code op) ∷ []) (link.shms s) (link.world s)
          ≡ reply r (q ∷ qs) w
        → ask_int rpc op [] s ≡ (low32 q.b, link.with_world w s)
    no_value op s {r} {q} {qs} {w} h =
        ask_int-answered op _ s r q qs w
          (rw connected.encode_value (process-handler os op 1 _ _ _ _ (decode-core_code op) ∙ h))

    -- For arguments and a result in the range of their C types, each of these system calls makes
    -- exactly the call of the C library that is meant, with the arguments that the application gave,
    -- and returns that call's result: nothing is lost in the conversions on the way and back.
    pub issue-direct :
        (c : ValueCall) (s : S)
        → InRange c
        → Fits c (os.call (direct c) (link.world s)).0
        → issue c s ≡ (
          (os.call (direct c) (link.world s)).0,
          link.with_world (os.call (direct c) (link.world s)).2 s,
        )
    unfolding issue direct handler vfs_close vfs_fsync vfs_ftruncate vfs_fchmod vfs_fchown
        vfs_geteuid vfs_getpid vfs_lseek vfs_sleep vfs_fcntl_void vfs_fcntl_int syscall_vfs_close
        syscall_vfs_fsync syscall_vfs_ftruncate syscall_vfs_fchmod syscall_vfs_fchown
        syscall_vfs_geteuid syscall_vfs_getpid syscall_vfs_lseek syscall_vfs_sleep
        syscall_vfs_fcntl_void syscall_vfs_fcntl_int
    issue-direct (close_value fd) s h k =
        one_value VfsOp.close_op (sext fd) 0 0 s refl ∙ rw (low32-sext fd h, low32-sext _ k)
    issue-direct (fsync_value fd) s h k =
        one_value VfsOp.fsync_op (sext fd) 0 0 s refl ∙ rw (low32-sext fd h, low32-sext _ k)
    issue-direct (ftruncate_value fd size) s h k =
        one_value VfsOp.ftruncate_op (sext fd) size 0 s refl ∙ rw (low32-sext fd h, low32-sext _ k)
    issue-direct (fchmod_value fd mode) s h k =
        one_value VfsOp.fchmod_op (sext fd) mode 0 s refl
        ∙ rw (low32-sext fd h.0, low32_self mode h.1, low32-sext _ k)
    issue-direct (fchown_value fd owner group) s h k =
        one_value VfsOp.fchown_op (sext fd) owner group s refl
        ∙ rw (low32-sext fd h.0, low32_self owner h.1, low32_self group h.2, low32-sext _ k)
    issue-direct geteuid_value s h k = no_value VfsOp.geteuid_op s refl ∙ rw (low32_self _ k)
    issue-direct getpid_value s h k = no_value VfsOp.getpid_op s refl ∙ rw (low32-sext _ k)
    issue-direct (lseek_value fd offset whence) s h k =
        long_value VfsOp.lseek_op (sext fd) offset (sext whence) s refl
        ∙ rw (low32-sext fd h.0, low32-sext whence h.1)
    issue-direct (sleep_value seconds) s h k =
        one_value VfsOp.sleep_op seconds 0 0 s refl ∙ rw (low32_self seconds h, low32_self _ k)
    issue-direct (fcntl_void_value fd cmd) s h k =
        one_value VfsOp.fcntl_void_op (sext fd) (sext cmd) 0 s refl
        ∙ rw (low32-sext fd h.0, low32-sext cmd h.1, low32-sext _ k)
    issue-direct (fcntl_int_value fd cmd pa) s h k =
        one_value VfsOp.fcntl_int_op (sext fd) (sext cmd) (sext pa) s refl
        ∙ rw (low32-sext fd h.0, low32-sext cmd h.1, low32-sext pa h.2, low32-sext _ k)
