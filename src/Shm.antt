-- ===== src/Shm.antt =====
-- The shared memory of optee_client/tee-supplicant/tee_supplicant.c: the list `shm_head` of
-- `struct tee_shm` and the access to a request's parameters. The list is taken under `shm_mutex` by
-- each of find_tshm, pop_tshm and push_tshm, so each is one step on it. A pointer is an address, and
-- NULL is 0; sizes and offsets are 64-bit words, identifiers are `int` patterns.
pub mod Param
pub mod Bounds
pub mod Alloc
pub mod Order
pub mod Balance
mod Tests
use tee_sqlite.Prelude.{ℕ, Bool, List, [], ◌∷◌, Option, none, some, ◌==◌, if◌then◌else◌}

-- `struct tee_shm`, less `next`, which is the order of the list.
pub record TeeShm : Type 0 where
  pub id : ℕ
  pub p : ℕ
  pub size : ℕ
  pub registered : Bool
  pub fd : ℕ

unfoldable pub find_tshm : ℕ → List TeeShm → Option TeeShm
find_tshm id [] = none
find_tshm id (t ∷ ts) = if t.id == id then some t else find_tshm id ts

-- The element unlinked, and the list that is left.
pub pop_tshm : ℕ → List TeeShm → Option TeeShm × List TeeShm
pop_tshm id [] = (none, [])
pop_tshm id (t ∷ ts) =
    let (found, rest) = pop_tshm id ts in if t.id == id then (some t, ts) else (found, t ∷ rest)

unfoldable pub push_tshm : TeeShm → List TeeShm → List TeeShm
push_tshm t ts = t ∷ ts
