-- ===== src/TaVfs/Overlay.antt =====
-- The contents of a file as a function of the offset, and what writing bytes over it gives.
use tee_sqlite.Prelude.{
  get_elem?-append, get_elem?-ge, ℕ, ◌+◌, ◌-◌, ◌≡◌, ap, List, [], ◌++◌, none, some, arith,
  if◌then◌else◌, ltb, length, get_elem?,
}

-- Byte `j` after `bs` is written at `o` over the contents `f`.
unfoldable pub overlay : ℕ → List ℕ → (ℕ → ℕ) → ℕ → ℕ
overlay o bs f j = if ltb j o then f j else elim (get_elem? bs (j - o)) [ none ↦ f j | some b ↦ b ]

pub overlay-nil : (o : ℕ) (f : ℕ → ℕ) (j : ℕ) → overlay o [] f j ≡ f j
unfolding overlay
overlay-nil o f j = ground arith

-- Writing two pieces one behind the other is writing them at once.
pub overlay-append :
    (o m : ℕ) (xs ys : List ℕ) (f : ℕ → ℕ) (j : ℕ)
    → m ≡ o + length xs
    → overlay m ys (overlay o xs f) j ≡ overlay o (xs ++ ys) f j
unfolding overlay
overlay-append o m xs ys f j e =
    ground (
      arith,
      get_elem?-append xs ys (j - o),
      get_elem?-ge xs (j - o),
      ap (get_elem? ys) (sub_twice),
    )
  where
    sub_twice : j - m ≡ j - o - length xs
    sub_twice = omega arith

pub overlay-ext :
    (o : ℕ) (bs : List ℕ) (f g : ℕ → ℕ) (j : ℕ) → f j ≡ g j → overlay o bs f j ≡ overlay o bs g j
unfolding overlay
overlay-ext o bs f g j h = ground arith
