-- ===== src/Core/PathReach.antt =====
-- The system calls on paths of optee_os/core/tee/tee_sqlite.c through the supplicant's handlers to
-- the C library, where the payload for the path is there.
use tee_sqlite.Prelude.{
  ℕ, ◌+◌, ◌≡◌, ◌<◌, ◌≤◌, ◌^◌, refl, ◌∙◌, List, [], ◌∷◌, some, arith, length, low32, sext,
  low32-sext, low32_self,
}
use tee_sqlite.Wire.{Param, VfsOp, TeecResult, core_code}
use tee_sqlite.Shm.Param.{param_to_va}
use tee_sqlite.Vfs.Libc.{Libc, Call, reply}
use tee_sqlite.Vfs.Dispatch.{process-handler, handler}
use tee_sqlite.Vfs.Paths.{vfs_open, vfs_access, vfs_mkdir, vfs_rmdir}
use tee_sqlite.Vfs.Files.{vfs_ftruncate}
use tee_sqlite.Core.{Mobj, dir_in, dir_inout, value, memref, Rpc, with_payload}
use tee_sqlite.Core.Values.{ask_int}
use tee_sqlite.Core.Paths.{
  c_string, syscall_vfs_open, syscall_vfs_access, syscall_vfs_mkdir, syscall_vfs_rmdir,
  syscall_vfs_truncate,
}
use tee_sqlite.Core.Link.{Link, IsConnected, decode-core_code}
use tee_sqlite.Core.Reach.{ask_int-answered, inout_value, in_value}

-- The system calls with a path that are a call of the C library on it.
pub data PathCall : Type 0 where
  open_path : (oflag arg1 : ℕ) → PathCall
  access_path : (type : ℕ) → PathCall
  mkdir_path : (mode : ℕ) → PathCall
  rmdir_path : PathCall

-- The call that is meant, on the address of the path.
unfoldable pub direct_at : PathCall → ℕ → Call
direct_at (open_path oflag arg1) va = Call.open_path va oflag arg1
direct_at (access_path type) va = Call.access va type
direct_at (mkdir_path mode) va = Call.mkdir va mode
direct_at rmdir_path va = Call.rmdir va

abbrev pub InRange : PathCall → Type 0
InRange (open_path oflag arg1) = (oflag < 2 ^ 32) × (arg1 < 2 ^ 32)
InRange (access_path type) = type < 2 ^ 32
InRange (mkdir_path mode) = mode < 2 ^ 32
InRange rmdir_path = Unit {0}

module _ {S W : Type 0} (rpc : Rpc S) (os : Libc W) (link : Link S W) where
  unfoldable pub issue_on : PathCall → List ℕ → S → ℕ × S
  issue_on (open_path oflag arg1) path = syscall_vfs_open rpc path oflag arg1
  issue_on (access_path type) path = syscall_vfs_access rpc path type
  issue_on (mkdir_path mode) path = syscall_vfs_mkdir rpc path mode
  issue_on rmdir_path path = syscall_vfs_rmdir rpc path

  -- The state when the request is made: the payload `m` is allocated and holds the C string.
  abbrev pub filled : Mobj → List ℕ → S → S
  filled m path s = rpc.write_va m (c_string path) (rpc.alloc_payload (length path + 1) s).1

  -- Where the supplicant finds the payload.
  abbrev pub address : Mobj → S → ℕ
  address m s = param_to_va (link.encode (memref dir_in (some m) 0 0)) (link.shms s)

  pub with_payload-fits :
      {A : Type 0} (n : ℕ) (fail : A) (body : Mobj → S → A × S) (s : S) (m : Mobj) {a : A} {s' : S}
      → (rpc.alloc_payload n s).0 ≡ some m
      → n ≤ m.size
      → body m (rpc.alloc_payload n s).1 ≡ (a, s')
      → with_payload rpc n fail body s ≡ (a, rpc.free_payload (some m) s')
  unfolding with_payload
  with_payload-fits n fail body s m got fits h = ground arith

  module _ (connected : IsConnected rpc os link) where
    -- The requests with a path: what the handler replies comes back.
    path_value :
        (op : VfsOp) (m : Mobj) (a b c : ℕ) (s : S) {r : TeecResult} {q : Param} {qs : List Param}
        {w : W}
        → handler os op 3
            (inout_value (core_code op)
              ∷ link.encode (memref dir_in (some m) 0 0)
              ∷ in_value a b c
              ∷ [])
            (link.shms s)
            (link.world s)
          ≡ reply r (q ∷ qs) w
        → ask_int rpc op (memref dir_in (some m) 0 0 ∷ value dir_in a b c ∷ []) s
          ≡ (low32 q.b, link.with_world w s)
    path_value op m a b c s {r} {q} {qs} {w} h =
        ask_int-answered rpc os link connected op _ s r q qs w (
          rw (connected.encode_value dir_inout, connected.encode_value dir_in)
            (process-handler os op 3 _ _ _ _ (decode-core_code op) ∙ h))

    pub value_path :
        (op : VfsOp) (m : Mobj) (a b c : ℕ) (s : S) {r : TeecResult} {q : Param} {qs : List Param}
        {w : W}
        → handler os op 3
            (inout_value (core_code op)
              ∷ in_value a b c
              ∷ link.encode (memref dir_in (some m) 0 0)
              ∷ [])
            (link.shms s)
            (link.world s)
          ≡ reply r (q ∷ qs) w
        → ask_int rpc op (value dir_in a b c ∷ memref dir_in (some m) 0 0 ∷ []) s
          ≡ (low32 q.b, link.with_world w s)
    value_path op m a b c s {r} {q} {qs} {w} h =
        ask_int-answered rpc os link connected op _ s r q qs w (
          rw (connected.encode_value dir_inout, connected.encode_value dir_in)
            (process-handler os op 3 _ _ _ _ (decode-core_code op) ∙ h))

    path_only :
        (op : VfsOp) (m : Mobj) (s : S) {r : TeecResult} {q : Param} {qs : List Param} {w : W}
        → handler os op 2
            (inout_value (core_code op) ∷ link.encode (memref dir_in (some m) 0 0) ∷ [])
            (link.shms s)
            (link.world s)
          ≡ reply r (q ∷ qs) w
        → ask_int rpc op (memref dir_in (some m) 0 0 ∷ []) s ≡ (low32 q.b, link.with_world w s)
    path_only op m s {r} {q} {qs} {w} h = ask_int-answered rpc os link connected op _ s r q qs w (
        rw (connected.encode_value dir_inout)
          (process-handler os op 2 _ _ _ _ (decode-core_code op) ∙ h))

    -- Where the payload for the path is allocated and large enough, the arguments are words of 32 bits
    -- and so is the result, such a system call makes exactly the call of the C library that is meant,
    -- on the address at which the supplicant finds the payload with the path in it, returns that
    -- call's result, and frees the payload.
    pub issue_on-direct_at :
        (c : PathCall) (path : List ℕ) (s : S) (m : Mobj)
        → (rpc.alloc_payload (length path + 1) s).0 ≡ some m
        → length path + 1 ≤ m.size
        → InRange c
        → let s' = filled m path s in
          let done = os.call (direct_at c (address m s')) (link.world s') in
          done.0 < 2 ^ 32
          → issue_on c path s ≡ (done.0, rpc.free_payload (some m) (link.with_world done.2 s'))
    unfolding issue_on direct_at handler syscall_vfs_open syscall_vfs_access syscall_vfs_mkdir
        syscall_vfs_rmdir vfs_open vfs_access vfs_mkdir vfs_rmdir
    issue_on-direct_at (open_path oflag arg1) path s m got fits h k =
        with_payload-fits _ _ _ s m got fits (
          path_value VfsOp.open_op m (sext oflag) (sext arg1) 0 (filled m path s) refl
          ∙ rw (low32-sext oflag h.0, low32-sext arg1 h.1, low32-sext _ k))
    issue_on-direct_at (access_path type) path s m got fits h k =
        with_payload-fits _ _ _ s m got fits (
          value_path VfsOp.access_op m (sext type) 0 0 (filled m path s) refl
          ∙ rw (low32-sext type h, low32-sext _ k))
    issue_on-direct_at (mkdir_path mode) path s m got fits h k =
        with_payload-fits _ _ _ s m got fits (
          path_value VfsOp.mkdir_op m mode 0 0 (filled m path s) refl
          ∙ rw (low32_self mode h, low32-sext _ k))
    issue_on-direct_at rmdir_path path s m got fits h k =
        with_payload-fits _ _ _ s m got fits
          (path_only VfsOp.rmdir_op m (filled m path s) refl ∙ rw (low32-sext _ k))

    -- syscall_vfs_truncate sends the command of ftruncate with three parameters, which the handler
    -- of ftruncate refuses. Where the payload is there, the call returns 0, which means success, and
    -- the supplicant's process makes no call at all, whatever the path and the size.
    truncate_without_effect :
        (path : List ℕ) (size : ℕ) (s : S) (m : Mobj)
        → (rpc.alloc_payload (length path + 1) s).0 ≡ some m
        → length path + 1 ≤ m.size
        → let s' = filled m path s in
          syscall_vfs_truncate rpc path size s
          ≡ (0, rpc.free_payload (some m) (link.with_world (link.world s') s'))
    unfolding handler syscall_vfs_truncate vfs_ftruncate
    truncate_without_effect path size s m got fits =
        with_payload-fits _ _ _ s m got fits
          (path_value VfsOp.ftruncate_op m size 0 0 (filled m path s) refl)
