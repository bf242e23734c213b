-- ===== src/Vfs/Paths.antt =====
-- The handlers on paths of optee_client/tee-supplicant/tee_supplicant.c.
use tee_sqlite.Prelude.{ℕ, List, some, ◌==◌, ◌>>=◌, ◌>>◌, guard, low32, sext}
use tee_sqlite.Wire.{Param, success, bad_parameters}
use tee_sqlite.Shm.Param.{get_value, get_param}
use tee_sqlite.Vfs.Libc.{
  Libc, Call, Outcome, reply, Handler, refused_as, answer_int, set_first_c, va_at,
}

module _ {W : Type 0} (os : Libc W) where
  unfoldable pub vfs_open : Handler W
  unfolding get_value
  vfs_open num_params params shms w = refused_as bad_parameters params w (do
    guard (num_params == 3)
    _ ← get_value num_params params 0
    val2 ← get_value num_params params 2
    some (
        answer_int params
          (os.call (Call.open_path (va_at params 1 shms) (low32 val2.a) (low32 val2.b)) w)))

  unfoldable pub vfs_access : Handler W
  unfolding get_value
  vfs_access num_params params shms w = refused_as bad_parameters params w (do
    guard (num_params == 3)
    _ ← get_value num_params params 0
    val1 ← get_value num_params params 1
    some (answer_int params (os.call (Call.access (va_at params 2 shms) (low32 val1.a)) w)))

  unfoldable pub vfs_stat : Handler W
  unfolding get_value get_param
  vfs_stat num_params params shms w = refused_as bad_parameters params w (do
    guard (num_params == 3)
    _ ← get_value num_params params 0
    shm2 ← get_param num_params params 2 shms
    some (answer_int params (os.call (Call.stat (va_at params 1 shms) shm2.buffer) w)))

  unfoldable pub vfs_mkdir : Handler W
  unfolding get_value
  vfs_mkdir num_params params shms w = refused_as bad_parameters params w (do
    guard (num_params == 3)
    _ ← get_value num_params params 0
    val2 ← get_value num_params params 2
    some (answer_int params (os.call (Call.mkdir (va_at params 1 shms) (low32 val2.a)) w)))

  unfoldable pub vfs_rmdir : Handler W
  unfolding get_value
  vfs_rmdir num_params params shms w = refused_as bad_parameters params w (do
    guard (num_params == 2)
    _ ← get_value num_params params 0
    some (answer_int params (os.call (Call.rmdir (va_at params 1 shms)) w)))

  unfoldable pub vfs_unlink : Handler W
  unfolding get_value
  vfs_unlink num_params params shms w = refused_as bad_parameters params w (do
    guard (num_params == 2)
    _ ← get_value num_params params 0
    some (answer_int params (os.call (Call.unlink (va_at params 1 shms)) w)))

  unfoldable pub vfs_truncate : Handler W
  unfolding get_value
  vfs_truncate num_params params shms w = refused_as bad_parameters params w (do
    guard (num_params == 3)
    _ ← get_value num_params params 0
    val2 ← get_value num_params params 2
    some (answer_int params (os.call (Call.truncate (va_at params 1 shms) val2.a) w)))

  unfoldable pub vfs_utimes : Handler W
  unfolding get_value
  vfs_utimes num_params params shms w = refused_as bad_parameters params w (do
    guard (num_params == 3)
    _ ← get_value num_params params 0
    some (answer_int params (os.call (Call.utimes (va_at params 1 shms) (va_at params 2 shms)) w)))

  -- Only `errno` is reported. The message that prints what the call gives, NULL where it fails, is
  -- left out.
  unfoldable pub current_directory : ℕ → ℕ → List Param → W → Outcome W
  current_directory buf size params w =
      let (_, e, w') = os.call (Call.getcwd buf size) w in
      reply success (set_first_c params (sext e)) w'

  unfoldable pub vfs_getcwd : Handler W
  unfolding get_value get_param current_directory
  vfs_getcwd num_params params shms w = refused_as bad_parameters params w (do
    guard (num_params == 3)
    val2 ← get_value num_params params 2
    shm1 ← get_param num_params params 1 shms
    _ ← get_value num_params params 0
    some (current_directory shm1.buffer val2.a params w))
