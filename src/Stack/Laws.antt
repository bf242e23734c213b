-- ===== src/Stack/Laws.antt =====
-- What the way of a write from tee_vfs.c to the C library of tee_supplicant.c relies on: of the C library,
-- and of the payloads that optee_os/core/tee/tee_sqlite.c takes from the secure kernel.
use tee_sqlite.Prelude.{
  ℕ, ◌+◌, ◌^◌, ◌≡◌, ◌≤◌, ◌<◌, ◌⊎◌, List, [], ◌∷◌, some, length, get_elem?, replicate, sext,
  minus_one64,
}
use tee_sqlite.Wire.{VfsOp, core_code}
use tee_sqlite.Shm.Param.{param_to_va, get_param, SharedMemory}
use tee_sqlite.Vfs.Libc.{Libc, Call}
use tee_sqlite.Core.{Mobj, Rpc, memref, dir_in, dir_out}
use tee_sqlite.Core.Link.{Link}
use tee_sqlite.Core.BufferReach.{IsCount, cleared}
use tee_sqlite.Core.Reach.{inout_value, in_value}
use tee_sqlite.TaVfs.Overlay.{overlay}
use tee_sqlite.Stack.{seek_set}

-- What POSIX says of lseek and write in the supplicant on one descriptor: `content` are the bytes of the
-- file by offset, `pos` is the descriptor's offset, and `bytes` are those of the process at an address.
pub record IsPosix {W : Type 0} (os : Libc W) (fd : ℕ) (content : W → ℕ → ℕ) (pos : W → ℕ)
    (bytes : W → ℕ → ℕ → List ℕ) : Type 0 where
  pub lseek_content :
      (o : ℕ) (w : W) (j : ℕ) → content (os.call (Call.lseek fd o seek_set) w).2 j ≡ content w j
  pub lseek_pos :
      (o : ℕ) (w : W)
      → (os.call (Call.lseek fd o seek_set) w).0 ≡ o
      → pos (os.call (Call.lseek fd o seek_set) w).2 ≡ o
  pub write_count : (va n : ℕ) (w : W) → IsCount (os.call (Call.write fd va n) w).0
  pub write_content :
      (va n : ℕ) (w : W) (j : ℕ)
      → (os.call (Call.write fd va n) w).0 ≡ n
      → content (os.call (Call.write fd va n) w).2 j ≡ overlay (pos w) (bytes w va n) (content w) j

-- The state with the bytes in a payload just allocated.
abbrev pub payload_with : {S : Type 0} → Rpc S → Mobj → List ℕ → S → S
payload_with rpc m buf s =
    rpc.write_va m buf
      (rpc.write_va m (replicate (length buf) 0) (rpc.alloc_payload (length buf) s).1)

-- A payload is there for each write. It is shared memory: what the secure kernel writes to it the
-- supplicant finds at the address of the parameter. Neither allocation, copying nor release touches
-- the file, and the state of the supplicant's process is a part of that of both worlds.
pub record IsSharing {S W : Type 0} (rpc : Rpc S) (link : Link S W) (content : W → ℕ → ℕ)
    (pos : W → ℕ) (bytes : W → ℕ → ℕ → List ℕ) : Type 0 where
  pub part : (w : W) (s : S) → link.world (link.with_world w s) ≡ w
  pub there : (n : ℕ) (s : S) → (m : Mobj) × ((rpc.alloc_payload n s).0 ≡ some m) × (n ≤ m.size)
  pub shows :
      (m : Mobj) (buf : List ℕ) (s : S)
      → (rpc.alloc_payload (length buf) s).0 ≡ some m
      → bytes
          (link.world (payload_with rpc m buf s))
          (param_to_va
            (link.encode (memref dir_in (some m) 0 0))
            (link.shms (payload_with rpc m buf s)))
          (length buf)
        ≡ buf
  pub alloc_content :
      (n : ℕ) (s : S) (j : ℕ)
      → content (link.world (rpc.alloc_payload n s).1) j ≡ content (link.world s) j
  pub alloc_pos : (n : ℕ) (s : S) → pos (link.world (rpc.alloc_payload n s).1) ≡ pos (link.world s)
  pub copy_content :
      (m : Mobj) (bs : List ℕ) (s : S) (j : ℕ)
      → content (link.world (rpc.write_va m bs s)) j ≡ content (link.world s) j
  pub copy_pos :
      (m : Mobj) (bs : List ℕ) (s : S) → pos (link.world (rpc.write_va m bs s)) ≡ pos (link.world s)
  pub free_content :
      (m : Mobj) (s : S) (j : ℕ)
      → content (link.world (rpc.free_payload (some m) s)) j ≡ content (link.world s) j

-- What POSIX says of read in the supplicant on one descriptor, where fewer than 2 ^ 31 bytes are asked
-- for.
pub record IsPosixRead {W : Type 0} (os : Libc W) (fd : ℕ) (content : W → ℕ → ℕ) (pos : W → ℕ)
    (bytes : W → ℕ → ℕ → List ℕ) : Type 0 where
  pub read_range :
      (va n : ℕ) (w : W)
      → n < 2 ^ 31
      → ((os.call (Call.read fd va n) w).0 ≤ n) ⊎ ((os.call (Call.read fd va n) w).0 ≡ minus_one64)
  pub read_bytes :
      (va n k : ℕ) (w : W)
      → n < 2 ^ 31
      → (os.call (Call.read fd va n) w).0 ≤ n
      → k < (os.call (Call.read fd va n) w).0
      → get_elem? (bytes (os.call (Call.read fd va n) w).2 va n) k ≡ some (content w (pos w + k))
  pub read_end :
      (va n k : ℕ) (w : W)
      → n < 2 ^ 31
      → (os.call (Call.read fd va n) w).0 ≤ k
      → k < n
      → content w (pos w + k) ≡ 0

-- The payload of a read: it is there, the supplicant finds it in its list, and the secure kernel
-- reads from it what is in the supplicant's process at its address, as many bytes as it has.
pub record ReadPayload {S W : Type 0} (rpc : Rpc S) (os : Libc W) (link : Link S W)
    (bytes : W → ℕ → ℕ → List ℕ) (fd n : ℕ) (s : S) : Type 0 where
  pub payload : Mobj
  pub memory : SharedMemory
  pub there : (rpc.alloc_payload n s).0 ≡ some payload
  pub fits : n ≤ payload.size
  pub found :
      get_param 3
        (inout_value (core_code VfsOp.read_op)
          ∷ link.encode (memref dir_out (some payload) 0 0)
          ∷ in_value (sext fd) n 0
          ∷ [])
        1
        (link.shms (cleared rpc os link payload n s))
      ≡ some memory
  pub shows :
      (w : W)
      → rpc.read_va payload n (link.with_world w (cleared rpc os link payload n s))
        ≡ bytes w memory.buffer n
  pub whole : (s' : S) → length (rpc.read_va payload n s') ≡ n
