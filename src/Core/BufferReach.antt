-- ===== src/Core/BufferReach.antt =====
-- write and read of optee_os/core/tee/tee_sqlite.c through the supplicant's handlers to the C library,
-- where the payload for the buffer is there.
use tee_sqlite.Prelude.{
  ℕ, ◌≡◌, ◌<◌, ◌≤◌, ◌^◌, ◌⊎◌, refl, true, ◌∙◌, ap, List, [], ◌∷◌, some, arith, length, replicate,
  ◌>>=◌, low32, sext, low32-sext, minus_one64,
}
use tee_sqlite.Wire.{VfsOp, core_code, Param, TeecResult, memref_shm_id}
use tee_sqlite.Shm.{TeeShm, find_tshm}
use tee_sqlite.Shm.Param.{get_param, get_value, SharedMemory, param_to_va, param_is_memref}
use tee_sqlite.Vfs.Libc.{Libc, Call, answer, reply}
use tee_sqlite.Vfs.Dispatch.{process-handler, handler}
use tee_sqlite.Vfs.Files.{vfs_write, vfs_read}
use tee_sqlite.Core.{Mobj, dir_in, dir_out, dir_inout, value, memref, Rpc}
use tee_sqlite.Core.Values.{ask_long}
use tee_sqlite.Core.Buffers.{fetch, syscall_vfs_write, syscall_vfs_read}
use tee_sqlite.Core.Link.{Link, IsConnected, decode-core_code}
use tee_sqlite.Core.Reach.{ask_long-answered, inout_value, in_value}
use tee_sqlite.Core.PathReach.{with_payload-fits, value_path}

-- A count that an `int` holds, or -1.
abbrev pub IsCount : ℕ → Type 0
IsCount r = (r < 2 ^ 31) ⊎ (r ≡ minus_one64)

sext-low32 : (r : ℕ) → IsCount r → sext (low32 r) ≡ r
unfolding sext
sext-low32 r h = ground arith

-- The supplicant finds the whole of a payload in its list: the parameter `q` that it receives refers to
-- the buffer `t`, with no offset and the payload's size.
pub record FindsWhole (q : Param) (shms : List TeeShm) (m : Mobj) (t : TeeShm) : Type 0 where
  pub is_memref : param_is_memref q ≡ true
  pub offset : q.a ≡ 0
  pub size : q.b ≡ m.size
  pub word : m.size < 2 ^ 64
  pub found : find_tshm (low32 (memref_shm_id q)) shms ≡ some t
  pub room : m.size ≤ t.size

module _ {S W : Type 0} (rpc : Rpc S) (os : Libc W) (link : Link S W) where
  -- The state when write makes its request: the payload `m` holds the bytes.
  abbrev pub loaded : Mobj → List ℕ → S → S
  loaded m buf s =
      rpc.write_va m buf
        (rpc.write_va m (replicate (length buf) 0) (rpc.alloc_payload (length buf) s).1)

  -- The state when read makes its request: the payload `m` is cleared.
  abbrev pub cleared : Mobj → ℕ → S → S
  cleared m n s = rpc.write_va m (replicate n 0) (rpc.alloc_payload n s).1

  read_answer :
      (m : Mobj) (a n : ℕ) (shm : SharedMemory) (shms : List TeeShm) (w : W)
      → let params =
          inout_value (core_code VfsOp.read_op)
          ∷ link.encode (memref dir_out (some m) 0 0)
          ∷ in_value a n 0
          ∷ [] in
        get_param 3 params 1 shms ≡ some shm
        → handler os VfsOp.read_op 3 params shms w
          ≡ answer params (os.call (Call.read (low32 a) shm.buffer n) w)
  unfolding handler vfs_read get_value
  read_answer m a n shm shms w found = rw (found, ◌>>=◌) refl

  module _ (connected : IsConnected rpc os link) where
    out_value :
        (op : VfsOp) (m : Mobj) (a b c : ℕ) (s : S) {r : TeecResult} {q : Param} {qs : List Param}
        {w : W}
        → handler os op 3
            (inout_value (core_code op)
              ∷ link.encode (memref dir_out (some m) 0 0)
              ∷ in_value a b c
              ∷ [])
            (link.shms s)
            (link.world s)
          ≡ reply r (q ∷ qs) w
        → ask_long rpc op (memref dir_out (some m) 0 0 ∷ value dir_in a b c ∷ []) s
          ≡ (q.b, link.with_world w s)
    out_value op m a b c s {r} {q} {qs} {w} h =
        ask_long-answered rpc os link connected op _ s r q qs w (
          rw (connected.encode_value dir_inout, connected.encode_value dir_in)
            (process-handler os op 3 _ _ _ _ (decode-core_code op) ∙ h))

    -- The same for any address that the supplicant finds for the parameter.
    pub syscall_vfs_write-direct :
        (fd : ℕ) (buf : List ℕ) (s : S) (m : Mobj)
        → (rpc.alloc_payload (length buf) s).0 ≡ some m
        → length buf ≤ m.size
        → fd < 2 ^ 32
        → let s' = loaded m buf s in
          let va = param_to_va (link.encode (memref dir_in (some m) 0 0)) (link.shms s') in
          let done = os.call (Call.write fd va (length buf)) (link.world s') in
          IsCount done.0
          → syscall_vfs_write rpc fd buf s
            ≡ (done.0, rpc.free_payload (some m) (link.with_world done.2 s'))
    unfolding handler syscall_vfs_write vfs_write get_value
    syscall_vfs_write-direct fd buf s m got fits h k =
        with_payload-fits rpc os link _ _ _ s m got fits (
          ap (λ r. (sext r.0, r.1))
            (value_path rpc os link connected VfsOp.write_op m (sext fd) (length buf) 0
              (loaded m buf s) refl)
          ∙ rw (low32-sext fd h, sext-low32 _ k))

    -- A read of a trusted application, where its payload is there and the supplicant's get_param
    -- accepts it, makes exactly one call of the C library: read on the descriptor, of as many bytes
    -- as were asked for, to the buffer that get_param gives. It returns that call's result with the
    -- bytes that the payload then holds, and frees the payload.
    pub syscall_vfs_read-direct :
        (fd n : ℕ) (s : S) (m : Mobj) (shm : SharedMemory)
        → (rpc.alloc_payload n s).0 ≡ some m
        → n ≤ m.size
        → fd < 2 ^ 32
        → let s' = cleared m n s in
          let done = os.call (Call.read fd shm.buffer n) (link.world s') in
          let s2 = link.with_world done.2 s' in
          get_param 3
              (inout_value (core_code VfsOp.read_op)
                ∷ link.encode (memref dir_out (some m) 0 0)
                ∷ in_value (sext fd) n 0
                ∷ [])
              1
              (link.shms s')
            ≡ some shm
          → syscall_vfs_read rpc fd n s
            ≡ ((done.0, some (rpc.read_va m n s2)), rpc.free_payload (some m) s2)
    unfolding handler syscall_vfs_read fetch vfs_read get_value
    syscall_vfs_read-direct fd n s m shm got fits h found =
        with_payload-fits rpc os link _ _ _ s m got fits (
          ap (λ r. ((r.0, some (rpc.read_va m n r.1)), r.1))
            (out_value VfsOp.read_op m (sext fd) n 0 (cleared m n s) (
              read_answer m (sext fd) n shm _ _ found
              ∙ ap
                  (λ d.
                    answer
                      (inout_value (core_code VfsOp.read_op)
                        ∷ link.encode (memref dir_out (some m) 0 0)
                        ∷ in_value (sext fd) n 0
                        ∷ [])
                      (os.call (Call.read d shm.buffer n) (link.world (cleared m n s))))
                  (low32-sext fd h))))
