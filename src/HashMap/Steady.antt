-- ===== src/HashMap/Steady.antt =====
-- hm_set of optee_examples/tee_sqilte/ta/hashmap.c where the map does not grow: what it keeps of the
-- keys that items hold.
use tee_sqlite.Prelude.{
  ℕ, suc, ◌+◌, ◌%◌, ◌^◌, ◌≤◌, ◌<◌, ◌≡◌, ◌≢◌, refl, sym, ap, subst, ◌∙◌, Bool, true, false, List, [],
  ◌∷◌, Option, some, some_inj, ◌==◌, if◌then◌else◌, arith, get_elem?, get_elem?-lt, Bool-cases, inl,
  inr,
}
use tee_sqlite.HashMap.{Store, Item, assign}
use tee_sqlite.HashMap.Items.{set_item}
use tee_sqlite.HashMap.Table.{HashMap, set_bucket}
use tee_sqlite.HashMap.Maps.{hm_set}
use tee_sqlite.HashMap.Growth.{view, IsTable}
use tee_sqlite.HashMap.Buckets.{get_elem?-set_bucket, get_elem?-set_bucket_other}
use tee_sqlite.HashMap.Update.{hm_set-IsStored}
use tee_sqlite.HashMap.ZeroKey.{hm_set-IsZeroStored}

-- Each item of a list holds a key of the kind `P`, and each item of a map.
abbrev pub HasKeys : (ℕ → Type 0) → List Item → Type 0
HasKeys P [] = Unit {0}
HasKeys P (x ∷ xs) = P x.key × HasKeys P xs

abbrev pub AllHaveKeys : (ℕ → Type 0) → List (List Item) → Type 0
AllHaveKeys P items = (j : ℕ) (b : List Item) → get_elem? items j ≡ some b → HasKeys P b

pub HasKeys-weaken :
    (P Q : ℕ → Type 0) (xs : List Item) → ((a : ℕ) → P a → Q a) → HasKeys P xs → HasKeys Q xs
HasKeys-weaken P Q [] w h = tt
HasKeys-weaken P Q (x ∷ xs) w h = (w x.key h.0, HasKeys-weaken P Q xs w h.1)

-- set_item adds no key but the one that it is given, and counts at most one item more.
set_item-HasKeys :
    (P : ℕ → Type 0) (b : List Item) (key value : ℕ) (s : Store)
    → P key
    → HasKeys P b
    → HasKeys P (set_item true true b key value s).0
unfolding set_item
set_item-HasKeys P [] key value s p h = elim (Bool-cases (key == 0)) [
  | inl null ↦ rw (null, if◌then◌else◌) tt
  | inr present ↦ rw (present, if◌then◌else◌) (p, tt)
]
set_item-HasKeys P (x ∷ xs) key value s p h =
    let ih = set_item-HasKeys P xs key value (assign key x s) p h.1 in
    elim (Bool-cases (key == 0)) [
      | inl null ↦ rw (null, if◌then◌else◌) tt
      | inr present ↦ elim (Bool-cases ((assign key x s).ints key == 0)) [
        | inl past ↦ rw (present, if◌then◌else◌, past, if◌then◌else◌) (h.0, ih)
        | inr found ↦ elim (Bool-cases (x.value == value)) [
          | inl same ↦
              rw (present, if◌then◌else◌, found, if◌then◌else◌, same, if◌then◌else◌) (h.0, h.1)
          | inr other ↦
              rw (present, if◌then◌else◌, found, if◌then◌else◌, other, if◌then◌else◌) (h.0, h.1)
        ]
      ]
    ]

set_item-count :
    (b : List Item) (key value : ℕ) (s : Store) → (set_item true true b key value s).1 ≤ 1
unfolding set_item
set_item-count [] key value s = ground arith
set_item-count (x ∷ xs) key value s = ground (arith, set_item-count xs key value (assign key x s))

set_bucket-AllHaveKeys :
    (P : ℕ → Type 0) (items : List (List Item)) (k : ℕ) (c l : List Item)
    → get_elem? items k ≡ some c
    → AllHaveKeys P items
    → HasKeys P l
    → AllHaveKeys P (set_bucket k l items)
set_bucket-AllHaveKeys P items k c l there old new j b h = elim (Bool-cases (k == j)) [
  | inl at ↦
      let here : k ≡ j = ground arith in
      let it : l ≡ b = some_inj (
        sym (get_elem?-set_bucket k l c items there)
        ∙ (ap (get_elem? (set_bucket k l items)) here ∙ h)) in
      subst (HasKeys P) it new
  | inr off ↦ old j b (sym (get_elem?-set_bucket_other k j l items (ground arith)) ∙ h)
]

zero-ne : (k j : ℕ) → k ≡ 0 → (k == suc j) ≡ false
zero-ne k j h = ground arith

-- What hm_set leaves of a map that need not grow, for 0 and for other numbers.
pub record Kept (P : ℕ → Type 0) (m : HashMap) (k value : ℕ) (s : Store)
    (r : Option (Bool × HashMap × Store)) : Type 0 where
  pub table : HashMap
  pub store : Store
  pub run : r ≡ some (true, table, store)
  pub is_table : IsTable table store
  pub size : table.size ≡ m.size
  pub count : table.count ≤ m.count + 1
  pub same : (a : ℕ) → store.ints a ≡ s.ints a
  pub keys : AllHaveKeys P table.items
  pub views : (j : ℕ) → view table (suc j) ≡ (if k == suc j then value else view m (suc j))

module _ (over : ℕ → ℕ → Bool) (P : ℕ → Type 0) (m : HashMap) (key value : ℕ) (s : Store)
    (t : IsTable m s) (ne : key ≢ 0) (within : s.ints key < m.size) (small : m.size < 2 ^ 31)
    (keys : AllHaveKeys P m.items) (p : P key)
    (room : (c : ℕ) → c ≤ m.count + 1 → over c m.size ≡ false) where
  abbrev bucket : (b : List Item) × (get_elem? m.items (s.ints key) ≡ some b)
  bucket = get_elem?-lt m.items (s.ints key) (omega (arith, t.width))

  abbrev placed : List Item × ℕ × Store
  placed = set_item true true bucket.0 key value s

  abbrev kept : HashMap
  kept = record m {
    items = set_bucket (s.ints key) placed.0 m.items;
    count = (m.count + placed.1) % 2 ^ 32;
  }

  fewer : (m.count + placed.1) % 2 ^ 32 ≤ m.count + 1
  fewer = omega (arith, set_item-count bucket.0 key value s)

  hm_set-steady : hm_set over true true true m key value s ≡ some (true, kept, placed.2)
  unfolding hm_set
  hm_set-steady =
      let present : (key == 0) ≡ false = ground arith in
      rw (present, if◌then◌else◌, bucket.1, room _ fewer) refl

  all_keys : AllHaveKeys P kept.items
  all_keys =
      set_bucket-AllHaveKeys P m.items (s.ints key) bucket.0 placed.0 bucket.1 keys
        (set_item-HasKeys P bucket.0 key value s p (keys (s.ints key) bucket.0 bucket.1))

  same_map :
      (table : HashMap) (store : Store)
      → hm_set over true true true m key value s ≡ some (true, table, store)
      → kept ≡ table
  same_map table store run =
      ap (λ (r : Bool × HashMap × Store). r.1) (some_inj (sym hm_set-steady ∙ run))

  -- hm_set for a number within the array, 0 or not, where memory is there and the map need not grow.
  pub hm_set-Kept : Kept P m (s.ints key) value s (hm_set over true true true m key value s)
  hm_set-Kept = elim (Bool-cases (s.ints key == 0)) [
    | inl zero_key ↦
        let none_there : s.ints key ≡ 0 = ground arith in
        let r = hm_set-IsZeroStored over m key value s t ne none_there (omega arith) small in
        let it = same_map r.table r.store r.run in
        record {
          table = r.table;
          store = r.store;
          run = r.run;
          is_table = r.is_table;
          size = sym (ap (λ (n : HashMap). n.size) it);
          count = subst (λ (n : HashMap). n.count ≤ m.count + 1) it fewer;
          same = r.same;
          keys = subst (λ (n : HashMap). AllHaveKeys P n.items) it all_keys;
          views = λ j.
              r.views j
              ∙ sym (
                  ap (λ (b : Bool). if b then value else view m (suc j))
                    (zero-ne (s.ints key) j none_there));
        }
    | inr other ↦
        let r = hm_set-IsStored over m key value s t ne (ground arith) within small in
        let it = same_map r.table r.store r.run in
        record {
          table = r.table;
          store = r.store;
          run = r.run;
          is_table = r.is_table;
          size = sym (ap (λ (n : HashMap). n.size) it);
          count = subst (λ (n : HashMap). n.count ≤ m.count + 1) it fewer;
          same = r.same;
          keys = subst (λ (n : HashMap). AllHaveKeys P n.items) it all_keys;
          views = λ j. r.views (suc j);
        }
  ]
