-- ===== src/HashMap/Lookup.antt =====
-- Lookups in optee_examples/tee_sqilte/ta/hashmap.c. That comparisons assign does no
-- harm to keys other than 0 within the array: `hash` is the key itself, so a bucket holds one key.
use tee_sqlite.Prelude.{
  ℕ, ◌<◌, ◌≡◌, ◌≢◌, refl, sym, ◌∙◌, true, List, [], ◌∷◌, none, some, ◌==◌, if◌then◌else◌, arith,
  get_elem?, get_elem?-lt, Bool-cases, inl, inr,
}
use tee_sqlite.HashMap.{Store, Item, assign}
use tee_sqlite.HashMap.Items.{get_item}
use tee_sqlite.HashMap.Table.{HashMap}
use tee_sqlite.HashMap.Maps.{hm_get}
use tee_sqlite.HashMap.Growth.{view, IsTable}
use tee_sqlite.HashMap.Buckets.{AllKeyed, IsKeyed, AllKeyed-ext, assign-same}

-- A lookup in such a bucket.
get_item-first :
    (x : Item) (xs : List Item) (key : ℕ) (s : Store)
    → s.ints x.key ≡ s.ints key
    → 0 < s.ints key
    → get_item (x ∷ xs) key s ≡ (some x, assign key x s)
unfolding get_item
get_item-first x xs key s h pos = ground (arith, assign-same key x s key h)

hm_get-first :
    (m : HashMap) (x : Item) (xs : List Item) (key : ℕ) (s : Store)
    → key ≢ 0
    → 0 < s.ints key
    → get_elem? m.items (s.ints key) ≡ some (x ∷ xs)
    → s.ints x.key ≡ s.ints key
    → hm_get m key s ≡ some (x.value, assign key x s)
unfolding hm_get
hm_get-first m x xs key s ne pos there h = ground (arith, get_item-first x xs key s h pos)

-- hm_get by a pointer to a number other than 0 within the array gives the value of that number, and
-- changes no number behind a key.
pub hm_get-view :
    (m : HashMap) (key : ℕ) (s : Store)
    → IsTable m s
    → key ≢ 0
    → 0 < s.ints key
    → s.ints key < m.size
    → (s' : Store) × (hm_get m key s ≡ some (view m (s.ints key), s'))
      × ((a : ℕ) → s'.ints a ≡ s.ints a)
unfolding hm_get view get_item
hm_get-view m key s t ne pos lt =
    let (b, there) = get_elem?-lt m.items (s.ints key) (omega (arith, t.width)) in
    found b there (t.keyed (s.ints key) b there)
  where
    found :
        (b : List Item)
        → get_elem? m.items (s.ints key) ≡ some b
        → AllKeyed b (s.ints key) s
        → (s' : Store) × (hm_get m key s ≡ some (view m (s.ints key), s'))
          × ((a : ℕ) → s'.ints a ≡ s.ints a)
    found [] there keyed = (s, ground arith, λ a. refl)
    found (x ∷ xs) there keyed = (
      assign key x s,
      hm_get-first m x xs key s ne pos there keyed.0 ∙ ground arith,
      λ a. assign-same key x s a keyed.0,
    )

get_item-zero :
    (xs : List Item) (key : ℕ) (s : Store)
    → AllKeyed xs 0 s
    → s.ints key ≡ 0
    → (get_item xs key s).0 ≡ none
unfolding get_item
get_item-zero [] key s keyed h = refl
get_item-zero (x ∷ xs) key s keyed h =
    let same : (a : ℕ) → (assign key x s).ints a ≡ s.ints a =
      λ a. assign-same key x s a (keyed.0 ∙ sym h) in
    let zero_there : ((assign key x s).ints key == 0) ≡ true = ground (arith, same key) in
    rw (zero_there, if◌then◌else◌)
      (get_item-zero xs key (assign key x s) (AllKeyed-ext xs 0 s _ same keyed.1) (same key ∙ h))

-- On a map whose items stand in the bucket of their key, hm_get never finds the key 0, whatever was
-- set for it: it returns NULL.
hm_get-zero :
    (m : HashMap) (key : ℕ) (s : Store) (b : List Item)
    → IsKeyed m s
    → s.ints key ≡ 0
    → get_elem? m.items 0 ≡ some b
    → (s' : Store) × (hm_get m key s ≡ some (0, s'))
unfolding hm_get
hm_get-zero m key s b keyed h there = elim (Bool-cases (key == 0)) [
  | inl null ↦ (s, rw (null, if◌then◌else◌) refl)
  | inr present ↦ (
    (get_item b key s).1,
    rw (present, if◌then◌else◌, h, there, get_item-zero b key s (keyed 0 b there) h) refl,
  )
]
