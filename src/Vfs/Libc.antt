-- ===== src/Vfs/Libc.antt =====
-- The C library as the handlers vfs_* of optee_client/tee-supplicant/tee_supplicant.c use it, and
-- what a handler leaves: the supplicant's C library is not part of the repository, so it is a
-- parameter, a record `Libc` over a state `W` of the process and of the system.
use tee_sqlite.Prelude.{ℕ, List, [], ◌∷◌, Option, none, some, sext, get_elem?}
use tee_sqlite.Wire.{Param, TeecResult, success}
use tee_sqlite.Shm.{TeeShm}
use tee_sqlite.Shm.Param.{param_to_va}

-- A call with its arguments: addresses, and numbers in the width of the C parameter.
pub data Call : Type 0 where
  open_path : (path oflag mode : ℕ) → Call
  close : (fd : ℕ) → Call
  access : (name type : ℕ) → Call
  write : (fd buf n : ℕ) → Call
  getcwd : (buf size : ℕ) → Call
  stat : (path buf : ℕ) → Call
  fstat : (fd buf : ℕ) → Call
  mkdir : (path mode : ℕ) → Call
  rmdir : (path : ℕ) → Call
  unlink : (path : ℕ) → Call
  ftruncate : (fd size : ℕ) → Call
  read : (fd buf n : ℕ) → Call
  fchmod : (fd mode : ℕ) → Call
  fchown : (fd owner group : ℕ) → Call
  geteuid : Call
  getpid : Call
  lseek : (fd offset whence : ℕ) → Call
  fsync : (fd : ℕ) → Call
  sleep : (seconds : ℕ) → Call
  pread : (fd buf n offset : ℕ) → Call
  pwrite : (fd buf n offset : ℕ) → Call
  truncate : (path size : ℕ) → Call
  gettimeofday : (tv tz : ℕ) → Call
  fcntl_void : (fd cmd : ℕ) → Call
  fcntl_int : (fd cmd pa : ℕ) → Call
  fcntl_ptr : (fd cmd buf : ℕ) → Call
  utimes : (path times : ℕ) → Call
  time : Call
  usleep : (usec : ℕ) → Call

-- `call` gives the result in the width of its C type, `errno` after it (0 if the call leaves it, as
-- it is cleared before), and the state. `fstat_local` is `fstat` into a local struct: its result,
-- `errno` and the field st_size. `getenv` gives the text, or `none` for NULL. `store` is memcpy.
pub record Libc (W : Type 0) : Type 0 where
  pub call : Call → W → ℕ × ℕ × W
  pub fstat_local : ℕ → W → ℕ × ℕ × ℕ × W
  pub getenv : ℕ → W → Option (List ℕ)
  pub store : ℕ → List ℕ → W → W

-- A reply with the parameters as they are left; or a fault, the dereference of NULL.
pub data Outcome (W : Type 0) : Type 0 where
  reply : TeecResult → List Param → W → Outcome W
  fault : W → Outcome W

abbrev pub Handler : Type 0 → Type 0
Handler W = ℕ → List Param → List TeeShm → W → Outcome W

-- The early return of a handler, where a parameter is not accepted.
abbrev pub refused_as : {W : Type 0} → TeecResult → List Param → W → Option (Outcome W) → Outcome W
refused_as r params w none = reply r params w
refused_as r params w (some o) = o

-- `val0->b = b`, `val0->c = c`.
abbrev pub set_first_b : List Param → ℕ → List Param
set_first_b [] b = []
set_first_b (p ∷ ps) b = record p { b = b } ∷ ps

abbrev pub set_first_c : List Param → ℕ → List Param
set_first_c [] c = []
set_first_c (p ∷ ps) c = record p { c = c } ∷ ps

abbrev pub set_first_bc : List Param → ℕ → ℕ → List Param
set_first_bc [] b c = []
set_first_bc (p ∷ ps) b c = record p { b = b; c = c } ∷ ps

-- A result of 64 bits, or unsigned, and `errno` go to val0->b and val0->c.
abbrev pub answer : {W : Type 0} → List Param → ℕ × ℕ × W → Outcome W
answer params (r, e, w) = reply success (set_first_bc params r (sext e)) w

-- An `int` result is sign-extended.
abbrev pub answer_int : {W : Type 0} → List Param → ℕ × ℕ × W → Outcome W
answer_int params (r, e, w) = reply success (set_first_bc params (sext r) (sext e)) w

-- tee_supp_param_to_va(params + i).
abbrev pub va_at : List Param → ℕ → List TeeShm → ℕ
va_at params i shms = elim (get_elem? params i) [ none ↦ 0 | some p ↦ param_to_va p shms ]
