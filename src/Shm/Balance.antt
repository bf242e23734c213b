-- ===== src/Shm/Balance.antt =====
-- Nothing leaks in process_alloc and process_free of
-- optee_client/tee-supplicant/tee_supplicant.c: what the host holds is what the list accounts for.
use tee_sqlite.Prelude.{
  ℕ, ◌+◌, ◌^◌, ◌<◌, ◌≤◌, ◌≡◌, refl, Bool, true, List, [], ◌∷◌, none, some, arith, length,
  if◌then◌else◌, Option-cases, inl, inr, low32, sext, low32-sext,
}
use tee_sqlite.Wire.{Param, success}
use tee_sqlite.Shm.{TeeShm, pop_tshm}
use tee_sqlite.Shm.Alloc.{
  Answers, Memory, alloc_size, process_alloc, release, process_free, only_value, free_id,
}
use tee_sqlite.Shm.Param.{type_is_value}

-- How many elements are registered.
unfoldable pub registered_count : List TeeShm → ℕ
registered_count [] = 0
registered_count (t ∷ ts) = (if t.registered then 1 else 0) + registered_count ts

-- Each element has a struct and a descriptor, and a buffer or a mapping; nothing else is held.
pub record IsBalanced (m : Memory) : Type 0 where
  pub structs : m.host.structs ≡ length m.shms
  pub fds : m.host.fds ≡ length m.shms
  pub buffers : m.host.buffers ≡ registered_count m.shms
  pub maps : m.host.maps + registered_count m.shms ≡ length m.shms

alloc_size-IsBalanced :
    (reg_mem : Bool) (env : Answers) (size : ℕ) (params : List Param) (m : Memory)
    → IsBalanced m
    → IsBalanced (alloc_size reg_mem env size params m).memory
unfolding alloc_size registered_count
alloc_size-IsBalanced reg_mem env size params m v = ground arith

-- process_alloc keeps the balance on every path: also where calloc, the driver, mmap or
-- posix_memalign fails, and for each kind of memory.
pub process_alloc-IsBalanced :
    (reg_mem : Bool) (env : Answers) (num_params : ℕ) (params : List Param) (m : Memory)
    → IsBalanced m
    → IsBalanced (process_alloc reg_mem env num_params params m).memory
unfolding process_alloc
process_alloc-IsBalanced reg_mem env num_params params m v =
    elim (Option-cases (only_value num_params params)) [
      | inl refused ↦ rw (refused, process_alloc) v
      | inr (val, got) ↦
          rw (got, process_alloc) (alloc_size-IsBalanced reg_mem env val.b params m v)
    ]

-- What unlinking an element changes in the counts.
pop_none : (id : ℕ) (ts : List TeeShm) → (pop_tshm id ts).0 ≡ none → (pop_tshm id ts).1 ≡ ts
unfolding pop_tshm
pop_none id [] h = refl
pop_none id (t ∷ ts) h = ground (arith, pop_none id ts)

length-pop :
    (id : ℕ) (ts : List TeeShm) {t : TeeShm}
    → (pop_tshm id ts).0 ≡ some t
    → length (pop_tshm id ts).1 + 1 ≡ length ts
unfolding pop_tshm
length-pop id [] h = ground arith
length-pop id (u ∷ ts) {t} h = ground (arith, length-pop id ts {t = t})

registered_count-pop :
    (id : ℕ) (ts : List TeeShm) {t : TeeShm}
    → (pop_tshm id ts).0 ≡ some t
    → registered_count (pop_tshm id ts).1 + (if t.registered then 1 else 0) ≡ registered_count ts
unfolding pop_tshm registered_count
registered_count-pop id [] h = ground arith
registered_count-pop id (u ∷ ts) {t} h = ground (arith, registered_count-pop id ts {t = t})

registered_count-le : (ts : List TeeShm) → registered_count ts ≤ length ts
unfolding registered_count
registered_count-le [] = omega arith
registered_count-le (t ∷ ts) = ground (arith, registered_count-le ts)

release-IsBalanced :
    (env : Answers) (id : ℕ) (t : TeeShm) (params : List Param) (m : Memory)
    → IsBalanced m
    → env.munmap_ok ≡ true
    → (pop_tshm id m.shms).0 ≡ some t
    → IsBalanced (release env t params (record m { shms = (pop_tshm id m.shms).1 })).memory
unfolding release
release-IsBalanced env id t params m v ok h = ground (
  arith,
  length-pop id m.shms {t = t},
  registered_count-pop id m.shms {t = t},
  registered_count-le (pop_tshm id m.shms).1,
)

free_id-IsBalanced :
    (env : Answers) (id : ℕ) (params : List Param) (m : Memory)
    → IsBalanced m
    → env.munmap_ok ≡ true
    → IsBalanced (free_id env id params m).memory
unfolding free_id
free_id-IsBalanced env id params m v ok = elim (Option-cases (pop_tshm id m.shms).0) [
  | inl gone ↦ rw (gone, free_id) (rw (pop_none id m.shms gone) v)
  | inr (t, got) ↦ rw (got, free_id) (release-IsBalanced env id t params m v ok got)
]

-- process_free keeps the balance on every path, given that munmap does not fail.
pub process_free-IsBalanced :
    (env : Answers) (num_params : ℕ) (params : List Param) (m : Memory)
    → IsBalanced m
    → env.munmap_ok ≡ true
    → IsBalanced (process_free env num_params params m).memory
unfolding process_free
process_free-IsBalanced env num_params params m v ok =
    elim (Option-cases (only_value num_params params)) [
      | inl refused ↦ rw (refused, process_free) v
      | inr (val, got) ↦ rw (got, process_free) (free_id-IsBalanced env (low32 val.b) params m v ok)
    ]

-- The memory after an allocation is freed again.
free_alloc :
    (reg_mem : Bool) (env env' : Answers) (size : ℕ) (params freed : List Param) (m : Memory)
    → env'.munmap_ok ≡ true
    → (alloc_size reg_mem env size params m).result ≡ success
    → let m' = (alloc_size reg_mem env size params m).memory in
      ((free_id env' env.ioctl_id freed m').memory ≡ m)
      × ((free_id env' env.ioctl_id freed m').result ≡ success)
unfolding alloc_size free_id
free_alloc reg_mem env env' size params freed m ok h = ground arith

alloc_size-params :
    (reg_mem : Bool) (env : Answers) (size : ℕ) (p : Param) (m : Memory)
    → (alloc_size reg_mem env size (p ∷ []) m).result ≡ success
    → (alloc_size reg_mem env size (p ∷ []) m).params ≡ record p { c = sext env.ioctl_id } ∷ []
unfolding alloc_size
alloc_size-params reg_mem env size p m h = ground arith

only_value-one : (p : Param) → type_is_value p.type ≡ true → only_value 1 (p ∷ []) ≡ some p
unfolding only_value
only_value-one p h = rw h

-- A round trip: if process_alloc succeeds on a value parameter, and the identifier that it left in
-- field c comes back in field b of a value parameter, then process_free succeeds (given that
-- munmap does not fail) and leaves the list and the host's resources as they were before.
pub process_free-process_alloc :
    (reg_mem : Bool) (env env' : Answers) (p q r : Param) (m : Memory)
    → type_is_value p.type ≡ true
    → type_is_value q.type ≡ true
    → env.ioctl_id < 2 ^ 32
    → env'.munmap_ok ≡ true
    → (process_alloc reg_mem env 1 (p ∷ []) m).result ≡ success
    → (process_alloc reg_mem env 1 (p ∷ []) m).params ≡ r ∷ []
    → q.b ≡ r.c
    → let freed = process_free env' 1 (q ∷ []) (process_alloc reg_mem env 1 (p ∷ []) m).memory in
      (freed.result ≡ success) × (freed.memory ≡ m)
unfolding process_alloc process_free
process_free-process_alloc reg_mem env env' p q r m hp hq small ok done left back = ground (
  arith,
  only_value-one p hp,
  only_value-one q hq,
  alloc_size-params reg_mem env p.b p m,
  low32-sext env.ioctl_id small,
  free_alloc reg_mem env env' p.b (p ∷ []) (q ∷ []) m ok,
)
