-- ===== src/Shm/Order.antt =====
-- The list operations find_tshm, pop_tshm and push_tshm of
-- optee_client/tee-supplicant/tee_supplicant.c against each other.
use tee_sqlite.Prelude.{
  ℕ, ◌≡◌, refl, false, List, [], ◌∷◌, none, some, arith, ◌==◌, if◌then◌else◌, Bool-cases, inl, inr,
}
use tee_sqlite.Shm.{TeeShm, find_tshm, pop_tshm}

-- No identifier stands twice in the list.
abbrev pub Distinct : List TeeShm → Type 0
Distinct [] = Unit {0}
Distinct (t ∷ ts) = (find_tshm t.id ts ≡ none) × Distinct ts

-- pop_tshm hands out what find_tshm finds.
pub pop-find : (id : ℕ) (ts : List TeeShm) → (pop_tshm id ts).0 ≡ find_tshm id ts
unfolding pop_tshm find_tshm
pop-find id [] = refl
pop-find id (t ∷ ts) = ground (arith, pop-find id ts)

pub id-find : (id : ℕ) (ts : List TeeShm) {t : TeeShm} → find_tshm id ts ≡ some t → t.id ≡ id
unfolding find_tshm
id-find id [] h = ground arith
id-find id (u ∷ ts) {t} h = ground (arith, id-find id ts {t = t})

pop-keeps :
    (id : ℕ) (ts : List TeeShm) (j : ℕ)
    → (id == j) ≡ false
    → find_tshm j (pop_tshm id ts).1 ≡ find_tshm j ts
unfolding pop_tshm find_tshm
pop-keeps id [] j ne = refl
pop-keeps id (t ∷ ts) j ne = ground (arith, pop-keeps id ts j ne)

pop-drops : (id : ℕ) (ts : List TeeShm) → Distinct ts → find_tshm id (pop_tshm id ts).1 ≡ none
unfolding pop_tshm find_tshm
pop-drops id [] d = refl
pop-drops id (t ∷ ts) d = ground (arith, pop-drops id ts d.1)

-- In a list without repeated identifiers, pop_tshm hands out the element that find_tshm finds,
-- after which the identifier is gone and every other lookup is as before.
pub find-pop :
    (id : ℕ) (ts : List TeeShm)
    → Distinct ts
    → ((pop_tshm id ts).0 ≡ find_tshm id ts)
      × ((j : ℕ) → find_tshm j (pop_tshm id ts).1 ≡ (if id == j then none else find_tshm j ts))
find-pop id ts d = (pop-find id ts, others)
  where
    others : (j : ℕ) → find_tshm j (pop_tshm id ts).1 ≡ (if id == j then none else find_tshm j ts)
    others j = elim (Bool-cases (id == j)) [
      | inl same ↦ ground (arith, pop-drops id ts d)
      | inr ne ↦ rw ne (pop-keeps id ts j ne)
    ]

-- Popping keeps the identifiers distinct.
pub pop-Distinct : (id : ℕ) (ts : List TeeShm) → Distinct ts → Distinct (pop_tshm id ts).1
unfolding pop_tshm
pop-Distinct id [] d = d
pop-Distinct id (t ∷ ts) d = ground (arith, pop-Distinct id ts d.1, pop-keeps id ts t.id)
