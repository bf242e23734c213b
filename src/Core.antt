-- ===== src/Core.antt =====
-- The system calls syscall_vfs_* of optee_os/core/tee/tee_sqlite.c, by which a trusted application
-- reaches the files of the normal world, over what they use of the secure kernel.
pub mod Values
pub mod Paths
pub mod Buffers
pub mod Leaks
pub mod Link
pub mod Reach
pub mod PathReach
pub mod BufferReach
mod Tests
use tee_sqlite.Prelude.{
  ℕ, ◌+◌, ◌-◌, List, [], ◌∷◌, Option, none, some, ltb, if◌then◌else◌, low32, sext,
}

-- `struct mobj`: its identity, and the field `size`.
pub record Mobj : Type 0 where
  pub handle : ℕ
  pub size : ℕ

pub data Direction : Type 0 where
  dir_in dir_out dir_inout : Direction

-- `struct thread_param`, by THREAD_PARAM_VALUE and THREAD_PARAM_MEMREF: three 64-bit words, or a
-- buffer (`none` for NULL) with offset and size.
pub data ThreadParam : Type 0 where
  value : Direction → ℕ → ℕ → ℕ → ThreadParam
  memref : Direction → Option Mobj → ℕ → ℕ → ThreadParam

-- `params[0].u.value.b`, and `.c`. A first parameter is a value in each call.
abbrev pub first_b : List ThreadParam → ℕ
first_b (value d a b c ∷ ps) = b
first_b _ = 0

abbrev pub first_c : List ThreadParam → ℕ
first_c (value d a b c ∷ ps) = c
first_c _ = 0

-- The secure kernel, over a state `S` of both worlds: thread_rpc_alloc_payload, memcpy to and from
-- the address that mobj_get_va gives for a payload, thread_rpc_cmd(OPTEE_RPC_CMD_VFS, …) with the
-- parameters as it leaves them (its result is only logged), and thread_rpc_free_payload. It is not
-- part of the repository, so it is a parameter.
pub record Rpc (S : Type 0) : Type 0 where
  pub alloc_payload : ℕ → S → Option Mobj × S
  pub write_va : Mobj → List ℕ → S → S
  pub read_va : Mobj → ℕ → S → List ℕ
  pub cmd : List ThreadParam → S → List ThreadParam × S
  pub free_payload : Option Mobj → S → S

-- The frame of each call with a payload: allocate, give up with `fail` where there is none or it is
-- too small, and free it at the label `exit` on every path.
unfoldable pub with_payload : {S A : Type 0} → Rpc S → ℕ → A → (Mobj → S → A × S) → S → A × S
with_payload rpc len fail body s =
    let (m, s1) = rpc.alloc_payload len s in
    elim m [
      | none ↦ (fail, rpc.free_payload none s1)
      | some mobj ↦
          if ltb mobj.size len
          then (fail, rpc.free_payload (some mobj) s1)
          else let (r, s2) = body mobj s1 in (r, rpc.free_payload (some mobj) s2)
    ]
