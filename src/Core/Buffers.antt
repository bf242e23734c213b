-- ===== src/Core/Buffers.antt =====
-- The calls of optee_os/core/tee/tee_sqlite.c that move a buffer. A result pairs the returned word
-- with what is written to the caller's buffer, `none` where it is not touched.
use tee_sqlite.Prelude.{
  ℕ, ◌+◌, List, [], ◌∷◌, Option, none, some, if◌then◌else◌, low32, sext, minus_one32, minus_one64,
  length, take, replicate, ltb, Bool,
}
use tee_sqlite.Wire.{core_code}
use tee_sqlite.Wire
use tee_sqlite.Core.{Mobj, ThreadParam, value, memref, dir_in, dir_out, first_b, Rpc, with_payload}
use tee_sqlite.Core.Values.{request, ask_int, ask_long}
use tee_sqlite.Core.Paths.{c_string}

-- The parameters of a request that starts from params[0] as the last one left it.
abbrev pub again : List ThreadParam → List ThreadParam → List ThreadParam
again [] rest = rest
again (p ∷ ps) rest = p ∷ rest

-- `sizeof(times)`, that of a pointer.
abbrev pub times_size : ℕ
times_size = 8

module _ {S : Type 0} (rpc : Rpc S) where
  -- `ret` is an `int`, widened to `ssize_t` at the return.
  unfoldable pub syscall_vfs_write : ℕ → List ℕ → S → ℕ × S
  syscall_vfs_write fd buf s =
      with_payload rpc (length buf) minus_one64
        (λ buf_mobj s1.
          let (ret, s2) =
            ask_int rpc Wire.VfsOp.write_op
              (value dir_in (sext fd) (length buf) 0 ∷ memref dir_in (some buf_mobj) 0 0 ∷ [])
              (rpc.write_va buf_mobj buf (rpc.write_va buf_mobj (replicate (length buf) 0) s1)) in
          (sext ret, s2))
        s

  unfoldable pub syscall_vfs_pwrite : ℕ → List ℕ → ℕ → S → ℕ × S
  syscall_vfs_pwrite fd buf offset s =
      with_payload rpc (length buf) minus_one64
        (λ buf_mobj s1.
          ask_long rpc Wire.VfsOp.pwrite_op
            (value dir_in (sext fd) (length buf) offset ∷ memref dir_in (some buf_mobj) 0 0 ∷ [])
            (rpc.write_va buf_mobj buf s1))
        s

  -- What follows the clearing of a payload of `n` bytes: the request, and the copy back.
  unfoldable pub fetch : Wire.VfsOp → List ThreadParam → Mobj → ℕ → S → (ℕ × Option (List ℕ)) × S
  fetch op rest mobj n s1 =
      let (ret, s2) = ask_long rpc op rest (rpc.write_va mobj (replicate n 0) s1) in
      ((ret, some (rpc.read_va mobj n s2)), s2)

  unfoldable pub syscall_vfs_read : ℕ → ℕ → S → (ℕ × Option (List ℕ)) × S
  syscall_vfs_read fd n s =
      with_payload rpc n (minus_one64, none)
        (λ buf_mobj.
          fetch Wire.VfsOp.read_op
            (memref dir_out (some buf_mobj) 0 0 ∷ value dir_in (sext fd) n 0 ∷ []) buf_mobj n)
        s

  -- The buffer that is read into is passed as an input.
  unfoldable pub syscall_vfs_pread : ℕ → ℕ → ℕ → S → (ℕ × Option (List ℕ)) × S
  syscall_vfs_pread fd n offset s =
      with_payload rpc n (minus_one64, none)
        (λ buf_mobj.
          fetch Wire.VfsOp.pread_op
            (memref dir_in (some buf_mobj) 0 0 ∷ value dir_in (sext fd) n offset ∷ []) buf_mobj n)
        s

  -- The caller's pointer is returned in any case, so only the buffer is modelled.
  unfoldable pub syscall_vfs_getcwd : ℕ → S → Option (List ℕ) × S
  syscall_vfs_getcwd size s =
      let (r, s') =
        with_payload rpc size (0, none)
          (λ buf_mobj.
            fetch Wire.VfsOp.getcwd_op
              (memref dir_out (some buf_mobj) 0 0 ∷ value dir_in size 0 0 ∷ []) buf_mobj size)
          s in
      (r.1, s')

  -- `n` is sizeof(struct my_stat).
  unfoldable pub syscall_vfs_fstat : ℕ → ℕ → S → (ℕ × Option (List ℕ)) × S
  syscall_vfs_fstat n fd s =
      let (r, s') =
        with_payload rpc n (minus_one32, none)
          (λ buf_mobj.
            fetch Wire.VfsOp.fstat_op
              (value dir_in (sext fd) 0 0 ∷ memref dir_out (some buf_mobj) 0 0 ∷ []) buf_mobj n)
          s in
      ((low32 (r.0), r.1), s')

  -- The labels `exit` and `exit2` free both payloads.
  unfoldable pub syscall_vfs_stat : ℕ → List ℕ → S → (ℕ × Option (List ℕ)) × S
  syscall_vfs_stat n file_name s =
      with_payload rpc (length file_name + 1) (minus_one32, none)
        (λ name_mobj s1.
          let (r, s2) =
            with_payload rpc n (minus_one32, none)
              (λ buf_mobj.
                fetch Wire.VfsOp.stat_op
                  (memref dir_in (some name_mobj) 0 0 ∷ memref dir_out (some buf_mobj) 0 0 ∷ [])
                  buf_mobj n)
              (rpc.write_va name_mobj (c_string file_name) s1) in
          ((low32 (r.0), r.1), s2))
        s

  -- `n` and `k` are the sizes of struct timeval and of struct timezone; `tz` is copied where it is
  -- given.
  unfoldable pub syscall_vfs_gettimeofday :
      ℕ → ℕ → Bool → S → (ℕ × Option (List ℕ) × Option (List ℕ)) × S
  syscall_vfs_gettimeofday n k tz_given s =
      with_payload rpc n (minus_one32, none, none)
        (λ tv_mobj s1.
          with_payload rpc k (minus_one32, none, none)
            (λ tz_mobj s2.
              let (ret, s3) =
                ask_int rpc Wire.VfsOp.gettimeofday_op
                  (memref dir_in (some tv_mobj) 0 0 ∷ memref dir_in (some tz_mobj) 0 0 ∷ [])
                  (rpc.write_va tz_mobj (replicate k 0) s2) in
              (
                (
                  ret,
                  some (rpc.read_va tv_mobj n s3),
                  if tz_given then some (rpc.read_va tz_mobj k s3) else none,
                ),
                s3,
              ))
            (rpc.write_va tv_mobj (replicate n 0) s1))
        s

  -- `times` are the bytes of the two struct timeval.
  unfoldable pub syscall_vfs_utimes : List ℕ → List ℕ → S → ℕ × S
  syscall_vfs_utimes filename times s =
      with_payload rpc (length filename + 1) minus_one32
        (λ filename_mobj s1.
          with_payload rpc times_size minus_one32
            (λ times_mobj s2.
              ask_int rpc Wire.VfsOp.utimes_op
                (memref dir_in (some filename_mobj) 0 0 ∷ memref dir_in (some times_mobj) 0 0 ∷ [])
                (rpc.write_va times_mobj (take times_size times)
                  (rpc.write_va times_mobj (replicate times_size 0) s2)))
            (rpc.write_va filename_mobj (c_string filename)
              (rpc.write_va filename_mobj (replicate (length filename + 1) 0) s1)))
        s

  -- A first request without a buffer learns the size, a second one fetches the text. `malloc` is
  -- taken to succeed.
  unfoldable pub syscall_vfs_getenv : List ℕ → S → Option (List ℕ) × S
  syscall_vfs_getenv name s =
      with_payload rpc (length name + 1) none
        (λ name_mobj s1.
          let (ps, s2) =
            request rpc Wire.VfsOp.getenv_op
              (memref dir_in (some name_mobj) 0 0 ∷ memref dir_out none 0 0 ∷ [])
              (rpc.write_va name_mobj (c_string name) s1) in
          let ret_len = first_b ps in
          with_payload rpc ret_len none
            (λ ret_mobj s3.
              let (_, s4) =
                rpc.cmd
                  (again ps
                    (memref dir_in (some name_mobj) 0 0 ∷ memref dir_out (some ret_mobj) 0 0 ∷ []))
                  s3 in
              (some (rpc.read_va ret_mobj ret_len s4), s4))
            s2)
        s

  -- The struct of the caller is not sent: the payload is cleared. `n` is its size. At `exit` the
  -- payload's bytes are copied to the caller; without a payload, or with one that is too small, the
  -- address is uninitialised, and what the copy does is not defined: the result is `none`, and the state
  -- that before the copy.
  unfoldable pub syscall_vfs_fcntl_flock : ℕ → ℕ → ℕ → S → Option (ℕ × List ℕ) × S
  syscall_vfs_fcntl_flock n fd cmd s =
      let (m, s1) = rpc.alloc_payload n s in
      elim m [
        | none ↦ (none, s1)
        | some flock_mobj ↦
            let (ret, s2) =
              ask_int rpc Wire.VfsOp.fcntl_flock_op
                (value dir_in (sext fd) (sext cmd) 0 ∷ memref dir_in (some flock_mobj) 0 0 ∷ [])
                (rpc.write_va flock_mobj (replicate n 0) s1) in
            if ltb flock_mobj.size n
            then (none, s1)
            else (some (ret, rpc.read_va flock_mobj n s2), rpc.free_payload (some flock_mobj) s2)
      ]
