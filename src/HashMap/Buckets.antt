-- ===== src/HashMap/Buckets.antt =====
-- The buckets of a map of optee_examples/tee_sqilte/ta/hashmap.c, by the keys of their items.
use tee_sqlite.Prelude.{
  ℕ, zero, suc, ◌≡◌, ◌≢◌, refl, sym, ap, subst, ◌∙◌, ◌+◌, some_inj, List, [], ◌∷◌, some, ◌==◌,
  arith, get_elem?, Bool-cases, inl, inr,
}
use tee_sqlite.HashMap.{Store, Item, assign}
use tee_sqlite.HashMap.Table.{HashMap, set_bucket}

-- The number behind each key of the list is `k`.
abbrev pub AllKeyed : List Item → ℕ → Store → Type 0
AllKeyed [] k s = Unit {0}
AllKeyed (x ∷ xs) k s = (s.ints x.key ≡ k) × AllKeyed xs k s

-- In bucket `i` are items with the key `i`.
abbrev pub IsKeyed : HashMap → Store → Type 0
IsKeyed m s = (i : ℕ) (b : List Item) → get_elem? m.items i ≡ some b → AllKeyed b i s

pub AllKeyed-ext :
    (xs : List Item) (k : ℕ) (s s' : Store)
    → ((a : ℕ) → s'.ints a ≡ s.ints a)
    → AllKeyed xs k s
    → AllKeyed xs k s'
AllKeyed-ext [] k s s' same h = tt
AllKeyed-ext (x ∷ xs) k s s' same h = (same x.key ∙ h.0, AllKeyed-ext xs k s s' same h.1)

pub get_elem?-set_bucket :
    (i : ℕ) (b c : List Item) (xs : List (List Item))
    → get_elem? xs i ≡ some c
    → get_elem? (set_bucket i b xs) i ≡ some b
unfolding set_bucket
get_elem?-set_bucket i b c [] h = ground arith
get_elem?-set_bucket zero b c (x ∷ xs) h = refl
get_elem?-set_bucket (suc i) b c (x ∷ xs) h = get_elem?-set_bucket i b c xs h

pub get_elem?-set_bucket_other :
    (i j : ℕ) (b : List Item) (xs : List (List Item))
    → i ≢ j
    → get_elem? (set_bucket i b xs) j ≡ get_elem? xs j
unfolding set_bucket
get_elem?-set_bucket_other i j b [] h = refl
get_elem?-set_bucket_other zero zero b (x ∷ xs) h = absurd (h refl)
get_elem?-set_bucket_other zero (suc j) b (x ∷ xs) h = refl
get_elem?-set_bucket_other (suc i) zero b (x ∷ xs) h = refl
get_elem?-set_bucket_other (suc i) (suc j) b (x ∷ xs) h =
    get_elem?-set_bucket_other i j b xs (λ e. h (ap suc e))

pub set_bucket-kept :
    (xs : List (List Item)) (k : ℕ) (c l : List Item) (s s' : Store)
    → ((i : ℕ) (b : List Item) → get_elem? xs i ≡ some b → AllKeyed b i s)
    → get_elem? xs k ≡ some c
    → AllKeyed l k s
    → ((a : ℕ) → s'.ints a ≡ s.ints a)
    → (i : ℕ) (b : List Item) → get_elem? (set_bucket k l xs) i ≡ some b
    → AllKeyed b i s'
set_bucket-kept xs k c l s s' keyed there new same i b h = elim (Bool-cases (k == i)) [
  | inl at ↦
      let here : k ≡ i = ground arith in
      let it : l ≡ b =
        ground
          (arith, get_elem?-set_bucket k l c xs there, ap (get_elem? (set_bucket k l xs)) here) in
      AllKeyed-ext b i s s' same
        (subst (λ j. AllKeyed b j s) here (subst (λ d. AllKeyed d k s) it new))
  | inr off ↦
      AllKeyed-ext b i s s' same
        (keyed i b (sym (get_elem?-set_bucket_other k i l xs (ground arith)) ∙ h))
]

-- Assigning a key the number that it has changes none.
pub assign-same :
    (key : ℕ) (x : Item) (s : Store) (a : ℕ)
    → s.ints x.key ≡ s.ints key
    → (assign key x s).ints a ≡ s.ints a
unfolding assign
assign-same key x s a h = ground arith

-- The lists from the list `i` on, each with its own key.
abbrev pub EachKeyed : ℕ → List (List Item) → Store → Type 0
EachKeyed i [] s = Unit {0}
EachKeyed i (b ∷ bs) s = AllKeyed b i s × EachKeyed (i + 1) bs s

each-AllKeyed :
    (i j : ℕ) (xs : List (List Item)) (s : Store) (b : List Item)
    → EachKeyed i xs s
    → get_elem? xs j ≡ some b
    → AllKeyed b (i + j) s
each-AllKeyed i j [] s b each h = absurd (ground arith)
each-AllKeyed i zero (x ∷ xs) s b each h =
    let start : i ≡ i + 0 = omega arith in
    subst (λ k. AllKeyed b k s) start (subst (λ l. AllKeyed l i s) (some_inj h) each.0)
each-AllKeyed i (suc j) (x ∷ xs) s b each h =
    let next : (i + 1) + j ≡ i + suc j = omega arith in
    subst (λ k. AllKeyed b k s) next (each-AllKeyed (i + 1) j xs s b each.1 h)

pub each-IsKeyed : (m : HashMap) (s : Store) → EachKeyed 0 m.items s → IsKeyed m s
each-IsKeyed m s each i b h =
    let start : 0 + i ≡ i = omega arith in
    subst (λ k. AllKeyed b k s) start (each-AllKeyed 0 i m.items s b each h)
