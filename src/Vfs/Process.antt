-- ===== src/Vfs/Process.antt =====
-- The handlers on the process, its environment and time of
-- optee_client/tee-supplicant/tee_supplicant.c.
use tee_sqlite.Prelude.{
  ℕ, ◌+◌, List, [], ◌∷◌, ◌++◌, none, some, ◌==◌, if◌then◌else◌, ◌>>=◌, ◌>>◌, guard, low32, sext,
  length,
}
use tee_sqlite.Wire.{Param, success, bad_parameters, short_buffer}
use tee_sqlite.Shm.Param.{get_value, get_param}
use tee_sqlite.Vfs.Libc.{
  Libc, Call, Outcome, reply, fault, Handler, refused_as, answer, answer_int, set_first_b,
  set_first_c, va_at,
}

module _ {W : Type 0} (os : Libc W) where
  unfoldable pub vfs_geteuid : Handler W
  unfolding get_value
  vfs_geteuid num_params params shms w = refused_as bad_parameters params w (do
    guard (num_params == 1)
    _ ← get_value num_params params 0
    some (answer params (os.call Call.geteuid w)))

  unfoldable pub vfs_getpid : Handler W
  unfolding get_value
  vfs_getpid num_params params shms w = refused_as bad_parameters params w (do
    guard (num_params == 1)
    _ ← get_value num_params params 0
    some (answer_int params (os.call Call.getpid w)))

  unfoldable pub vfs_sleep : Handler W
  unfolding get_value
  vfs_sleep num_params params shms w = refused_as bad_parameters params w (do
    guard (num_params == 2)
    _ ← get_value num_params params 0
    val1 ← get_value num_params params 1
    some (answer params (os.call (Call.sleep (low32 val1.a)) w)))

  unfoldable pub vfs_getdayoftime : Handler W
  unfolding get_value get_param
  vfs_getdayoftime num_params params shms w = refused_as bad_parameters params w (do
    guard (num_params == 3)
    _ ← get_value num_params params 0
    shm1 ← get_param num_params params 1 shms
    shm2 ← get_param num_params params 2 shms
    some (answer_int params (os.call (Call.gettimeofday shm1.buffer shm2.buffer) w)))

  unfoldable pub vfs_time : Handler W
  unfolding get_value
  vfs_time num_params params shms w = refused_as bad_parameters params w (do
    guard (num_params == 1)
    _ ← get_value num_params params 0
    some (answer params (os.call Call.time w)))

  -- Only `errno` is reported.
  unfoldable pub pause : ℕ → List Param → W → Outcome W
  pause usec params w =
      let (_, e, w') = os.call (Call.usleep usec) w in
      reply success (set_first_c params (sext e)) w'

  unfoldable pub vfs_usleep : Handler W
  unfolding get_value pause
  vfs_usleep num_params params shms w = refused_as bad_parameters params w (do
    guard (num_params == 2)
    _ ← get_value num_params params 0
    val1 ← get_value num_params params 1
    some (pause val1.a params w))

  -- `strlen` reads the result of getenv, also where it is NULL. The length goes to val->b, and the
  -- text with its NUL to the buffer if there is one.
  unfoldable pub copy_env : ℕ → ℕ → List Param → W → Outcome W
  copy_env name buffer params w = elim (os.getenv name w) [
    | none ↦ fault w
    | some text ↦
        let params' = set_first_b params (sext (low32 (length text + 1))) in
        if buffer == 0
        then reply short_buffer params' w
        else reply success params' (os.store buffer (text ++ (0 ∷ [])) w)
  ]

  unfoldable pub vfs_getenv : Handler W
  unfolding get_value get_param copy_env
  vfs_getenv num_params params shms w = refused_as bad_parameters params w (do
    guard (num_params == 3)
    _ ← get_value num_params params 0
    shm2 ← get_param num_params params 2 shms
    some (copy_env (va_at params 1 shms) shm2.buffer params w))
