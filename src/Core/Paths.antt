-- ===== src/Core/Paths.antt =====
-- The calls of optee_os/core/tee/tee_sqlite.c that take a path. A text is the list of its bytes
-- without the NUL that ends it; `strlen(path) + 1` bytes are copied into the payload.
use tee_sqlite.Prelude.{
  ℕ, ◌+◌, List, [], ◌∷◌, ◌++◌, Option, none, some, low32, sext, minus_one32, length,
}
use tee_sqlite.Wire.{core_code}
use tee_sqlite.Wire
use tee_sqlite.Core.{value, memref, dir_in, first_b, first_c, Rpc, with_payload}
use tee_sqlite.Core.Values.{request, ask_int}

-- The bytes of a C string.
abbrev pub c_string : List ℕ → List ℕ
c_string text = text ++ (0 ∷ [])

module _ {S : Type 0} (rpc : Rpc S) where
  unfoldable pub syscall_vfs_open : List ℕ → ℕ → ℕ → S → ℕ × S
  syscall_vfs_open path oflag arg1 s =
      with_payload rpc (length path + 1) minus_one32
        (λ path_mobj s1.
          ask_int rpc Wire.VfsOp.open_op
            (memref dir_in (some path_mobj) 0 0 ∷ value dir_in (sext oflag) (sext arg1) 0 ∷ [])
            (rpc.write_va path_mobj (c_string path) s1))
        s

  unfoldable pub syscall_vfs_access : List ℕ → ℕ → S → ℕ × S
  syscall_vfs_access path type s =
      with_payload rpc (length path + 1) minus_one32
        (λ path_mobj s1.
          ask_int rpc Wire.VfsOp.access_op
            (value dir_in (sext type) 0 0 ∷ memref dir_in (some path_mobj) 0 0 ∷ [])
            (rpc.write_va path_mobj (c_string path) s1))
        s

  unfoldable pub syscall_vfs_mkdir : List ℕ → ℕ → S → ℕ × S
  syscall_vfs_mkdir path mode s =
      with_payload rpc (length path + 1) minus_one32
        (λ path_mobj s1.
          ask_int rpc Wire.VfsOp.mkdir_op
            (memref dir_in (some path_mobj) 0 0 ∷ value dir_in mode 0 0 ∷ [])
            (rpc.write_va path_mobj (c_string path) s1))
        s

  unfoldable pub syscall_vfs_rmdir : List ℕ → S → ℕ × S
  syscall_vfs_rmdir path s =
      with_payload rpc (length path + 1) minus_one32
        (λ path_mobj s1.
          ask_int rpc Wire.VfsOp.rmdir_op (memref dir_in (some path_mobj) 0 0 ∷ [])
            (rpc.write_va path_mobj (c_string path) s1))
        s

  -- The command is that of ftruncate.
  unfoldable pub syscall_vfs_truncate : List ℕ → ℕ → S → ℕ × S
  syscall_vfs_truncate path size s =
      with_payload rpc (length path + 1) minus_one32
        (λ path_mobj s1.
          ask_int rpc Wire.VfsOp.ftruncate_op
            (memref dir_in (some path_mobj) 0 0 ∷ value dir_in size 0 0 ∷ [])
            (rpc.write_va path_mobj (c_string path) s1))
        s

  -- `*errno` is written where the request is made.
  unfoldable pub syscall_vfs_unlink : List ℕ → S → (ℕ × Option ℕ) × S
  syscall_vfs_unlink path s =
      with_payload rpc (length path + 1) (minus_one32, none)
        (λ path_mobj s1.
          let (ps, s2) =
            request rpc Wire.VfsOp.unlink_op (memref dir_in (some path_mobj) 0 0 ∷ [])
              (rpc.write_va path_mobj (c_string path) s1) in
          ((low32 (first_b ps), some (low32 (first_c ps))), s2))
        s
