-- ===== src/Loop/Params.antt =====
-- find_params of optee_client/tee-supplicant/tee_supplicant.c.
use tee_sqlite.Prelude.{
  ℕ, zero, suc, ◌+◌, ◌-◌, ◌≡◌, refl, Bool, true, false, List, [], ◌∷◌, ◌++◌, arith, if◌then◌else◌,
  length, drop, Bool-cases, inl, inr, ap, length-append,
}
use tee_sqlite.Wire.{Param}

-- Skipping meta parameters: how many stand in front of the others.
unfoldable pub count_meta : List Param → ℕ
count_meta [] = 0
count_meta (p ∷ ps) = if p.meta then suc (count_meta ps) else 0

-- No meta parameter follows.
unfoldable pub no_meta : List Param → Bool
no_meta [] = true
no_meta (p ∷ ps) = if p.meta then false else no_meta ps

-- What find_params sets through its pointers, and its result. `params` are the parameters of the
-- request, as many as `recv.num_params` says; `func` is copied and left out.
pub record Found : Type 0 where
  pub accepted : Bool
  pub num_params : ℕ
  pub params : List Param
  pub num_meta : ℕ

unfoldable pub find_params : List Param → Found
find_params ps =
    let n = count_meta ps in
    record {
      accepted = no_meta (drop n ps);
      num_params = length ps - n;
      params = drop n ps;
      num_meta = n;
    }

-- `k` parameters that are all meta.
abbrev pub AllMeta : ℕ → List Param → Type 0
AllMeta zero ps = Unit {0}
AllMeta (suc k) [] = ⊥
AllMeta (suc k) (p ∷ ps) = (p.meta ≡ true) × AllMeta k ps

abbrev pub NoneMeta : List Param → Type 0
NoneMeta [] = Unit {0}
NoneMeta (p ∷ ps) = (p.meta ≡ false) × NoneMeta ps

count_meta-AllMeta : (ps : List Param) → AllMeta (count_meta ps) ps
unfolding count_meta
count_meta-AllMeta [] = tt
count_meta-AllMeta (p ∷ ps) = elim (Bool-cases p.meta) [
  | inl meta ↦ rw (meta, if◌then◌else◌) (refl, count_meta-AllMeta ps)
  | inr other ↦ rw (other, if◌then◌else◌) tt
]

no_meta-NoneMeta : (ps : List Param) → no_meta ps ≡ true → NoneMeta ps
unfolding no_meta
no_meta-NoneMeta [] h = tt
no_meta-NoneMeta (p ∷ ps) h = (ground arith, no_meta-NoneMeta ps (ground arith))

count_meta-split :
    (k : ℕ) (ms ps : List Param)
    → length ms ≡ k
    → AllMeta k ms
    → NoneMeta ps
    → (count_meta (ms ++ ps) ≡ k) × (drop k (ms ++ ps) ≡ ps) × (no_meta ps ≡ true)
unfolding count_meta no_meta
count_meta-split zero [] [] e m n = (refl, refl, refl)
count_meta-split zero [] (p ∷ ps) e m n =
    (ground arith, refl, ground (arith, count_meta-split zero [] ps refl tt (n.1)))
count_meta-split zero (q ∷ ms) ps e m n = absurd (omega arith)
count_meta-split (suc k) [] ps e m n = absurd (omega arith)
count_meta-split (suc k) (q ∷ ms) ps e m n =
    let r = count_meta-split k ms ps (omega arith) (m.1) n in
    (rw (m.0, if◌then◌else◌) (ap suc (r.0)), r.1, r.2)

length-drop_count : (ps : List Param) → length (drop (count_meta ps) ps) + count_meta ps ≡ length ps
unfolding count_meta
length-drop_count [] = refl
length-drop_count (p ∷ ps) = elim (Bool-cases p.meta) [
  | inl meta ↦ rw (meta, if◌then◌else◌) (omega (arith, length-drop_count ps))
  | inr other ↦ rw (other, if◌then◌else◌) (omega arith)
]

-- What find_params hands on: the parameters before `num_meta` are all meta, `num_params` is the
-- number of those behind, and where it accepts none of those is meta.
find_params-parts :
    (ps : List Param)
    → AllMeta (find_params ps).num_meta ps
      × ((find_params ps).params ≡ drop (find_params ps).num_meta ps)
      × ((find_params ps).num_params ≡ length (find_params ps).params)
      × ((find_params ps).accepted ≡ true → NoneMeta (find_params ps).params)
unfolding find_params
find_params-parts ps =
    (count_meta-AllMeta ps, refl, omega (arith, length-drop_count ps), no_meta-NoneMeta _)

-- find_params accepts each request of meta parameters and then others, and finds the others.
pub find_params-append :
    (ms ps : List Param)
    → AllMeta (length ms) ms
    → NoneMeta ps
    → find_params (ms ++ ps)
      ≡ record { accepted = true; num_params = length ps; params = ps; num_meta = length ms }
unfolding find_params
find_params-append ms ps m n =
    let r = count_meta-split (length ms) ms ps refl m n in rw (r.0, r.1, r.2, rest_length)
  where
    rest_length : length (ms ++ ps) - length ms ≡ length ps
    rest_length = omega (arith, length-append ms ps)
