-- ===== src/Vfs/Files.antt =====
-- The handlers on file descriptors of optee_client/tee-supplicant/tee_supplicant.c.
-- `&&` and `||` of the checks have no effects, so they are a chain of tests in the code's order.
use tee_sqlite.Prelude.{
  ℕ, List, some, ◌==◌, if◌then◌else◌, ◌>>=◌, ◌>>◌, guard, low32, sext, minus_one32, minus_one64,
}
use tee_sqlite.Wire.{Param, success, bad_parameters, bad_format}
use tee_sqlite.Shm.Param.{get_value, get_param}
use tee_sqlite.Vfs.Libc.{
  Libc, Call, Outcome, reply, fault, Handler, refused_as, answer, answer_int, set_first_bc, va_at,
}

module _ {W : Type 0} (os : Libc W) where
  unfoldable pub vfs_close : Handler W
  unfolding get_value
  vfs_close num_params params shms w = refused_as bad_parameters params w (do
    guard (num_params == 2)
    _ ← get_value num_params params 0
    val1 ← get_value num_params params 1
    some (answer_int params (os.call (Call.close (low32 val1.a)) w)))

  unfoldable pub vfs_write : Handler W
  unfolding get_value
  vfs_write num_params params shms w = refused_as bad_parameters params w (do
    guard (num_params == 3)
    _ ← get_value num_params params 0
    val1 ← get_value num_params params 1
    some (answer params (os.call (Call.write (low32 val1.a) (va_at params 2 shms) val1.b) w)))

  unfoldable pub vfs_ftruncate : Handler W
  unfolding get_value
  vfs_ftruncate num_params params shms w = refused_as bad_parameters params w (do
    guard (num_params == 2)
    _ ← get_value num_params params 0
    val1 ← get_value num_params params 1
    some (answer_int params (os.call (Call.ftruncate (low32 val1.a) val1.b) w)))

  unfoldable pub vfs_read : Handler W
  unfolding get_value get_param
  vfs_read num_params params shms w = refused_as bad_parameters params w (do
    guard (num_params == 3)
    shm1 ← get_param num_params params 1 shms
    _ ← get_value num_params params 0
    val2 ← get_value num_params params 2
    some (answer params (os.call (Call.read (low32 val2.a) shm1.buffer val2.b) w)))

  unfoldable pub vfs_fchmod : Handler W
  unfolding get_value
  vfs_fchmod num_params params shms w = refused_as bad_parameters params w (do
    guard (num_params == 2)
    _ ← get_value num_params params 0
    val1 ← get_value num_params params 1
    some (answer_int params (os.call (Call.fchmod (low32 val1.a) (low32 val1.b)) w)))

  unfoldable pub vfs_fchown : Handler W
  unfolding get_value
  vfs_fchown num_params params shms w = refused_as bad_parameters params w (do
    guard (num_params == 2)
    _ ← get_value num_params params 0
    val1 ← get_value num_params params 1
    some (answer_int params (os.call (Call.fchown (low32 val1.a) (low32 val1.b) (low32 val1.c)) w)))

  unfoldable pub vfs_lseek : Handler W
  unfolding get_value
  vfs_lseek num_params params shms w = refused_as bad_parameters params w (do
    guard (num_params == 2)
    _ ← get_value num_params params 0
    val1 ← get_value num_params params 1
    some (answer params (os.call (Call.lseek (low32 val1.a) val1.b (low32 val1.c)) w)))

  unfoldable pub vfs_fsync : Handler W
  unfolding get_value
  vfs_fsync num_params params shms w = refused_as bad_parameters params w (do
    guard (num_params == 2)
    _ ← get_value num_params params 0
    val1 ← get_value num_params params 1
    some (answer_int params (os.call (Call.fsync (low32 val1.a)) w)))

  unfoldable pub vfs_pread : Handler W
  unfolding get_value get_param
  vfs_pread num_params params shms w = refused_as bad_parameters params w (do
    guard (num_params == 3)
    shm1 ← get_param num_params params 1 shms
    _ ← get_value num_params params 0
    val2 ← get_value num_params params 2
    some (answer params (os.call (Call.pread (low32 val2.a) shm1.buffer val2.b val2.c) w)))

  -- The code takes `val0` from parameter 1 and leaves `val1` NULL, which it then reads.
  unfoldable pub vfs_pwrite : Handler W
  unfolding get_value
  vfs_pwrite num_params params shms w =
      refused_as bad_parameters params w
        (do guard (num_params == 3); _ ← get_value num_params params 1; some (fault w))

  unfoldable pub vfs_fcntl_void : Handler W
  unfolding get_value
  vfs_fcntl_void num_params params shms w = refused_as bad_parameters params w (do
    guard (num_params == 2)
    _ ← get_value num_params params 0
    val1 ← get_value num_params params 1
    some (answer_int params (os.call (Call.fcntl_void (low32 val1.a) (low32 val1.b)) w)))

  unfoldable pub vfs_fcntl_int : Handler W
  unfolding get_value
  vfs_fcntl_int num_params params shms w = refused_as bad_parameters params w (do
    guard (num_params == 2)
    _ ← get_value num_params params 0
    val1 ← get_value num_params params 1
    some (
        answer_int params
          (os.call (Call.fcntl_int (low32 val1.a) (low32 val1.b) (low32 val1.c)) w)))

  unfoldable pub vfs_fcntl_flock : Handler W
  unfolding get_value get_param
  vfs_fcntl_flock num_params params shms w = refused_as bad_format params w (do
    guard (num_params == 3)
    _ ← get_value num_params params 0
    val1 ← get_value num_params params 1
    shm2 ← get_param num_params params 2 shms
    some (answer_int params (os.call (Call.fcntl_ptr (low32 val1.a) (low32 val1.b) shm2.buffer) w)))

  -- Two calls: into the buffer, and into a local struct for its size.
  unfoldable pub fstat_both : ℕ → ℕ → List Param → W → Outcome W
  fstat_both fd buf params w =
      let (_, _, w1) = os.call (Call.fstat fd buf) w in
      let (r, _, st_size, w2) = os.fstat_local fd w1 in
      reply success (set_first_bc params (sext r) st_size) w2

  unfoldable pub vfs_fstat : Handler W
  unfolding get_value get_param fstat_both
  vfs_fstat num_params params shms w = refused_as bad_parameters params w (do
    guard (num_params == 3)
    _ ← get_value num_params params 0
    val1 ← get_value num_params params 1
    shm2 ← get_param num_params params 2 shms
    some (fstat_both (low32 val1.a) shm2.buffer params w))

  -- st_size, or -1 where fstat fails.
  unfoldable pub size_of : ℕ → List Param → W → Outcome W
  size_of fd params w =
      let (r, e, st_size, w') = os.fstat_local fd w in
      reply success
        (set_first_bc params (if r == minus_one32 then minus_one64 else st_size) (sext e)) w'

  unfoldable pub vfs_filesize : Handler W
  unfolding get_value size_of
  vfs_filesize num_params params shms w = refused_as bad_parameters params w (do
    guard (num_params == 2)
    _ ← get_value num_params params 0
    val1 ← get_value num_params params 1
    some (size_of (low32 val1.a) params w))
