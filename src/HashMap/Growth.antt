-- ===== src/HashMap/Growth.antt =====
-- hm_rehash of optee_examples/tee_sqilte/ta/hashmap.c: a map that grows keeps the first item of each
-- list, which is the only one that a lookup sees.
use tee_sqlite.Prelude.{
  some_inj, ℕ, ◌-◌, ◌≤◌, ◌≡◌, refl, sym, ap, subst, ◌∙◌, Bool, true, false, List, [], ◌++◌, Option,
  none, some, ◌>>=◌, if◌then◌else◌, ltb, arith, length, replicate, get_elem?, get_elem?-append,
  get_elem?-ge, get_elem?-replicate, length-replicate, length-append, Bool-cases, inl, inr,
}
use tee_sqlite.HashMap.{Store, Item}
use tee_sqlite.HashMap.Table.{HashMap, hm_rehash, hm_create, next_size}
use tee_sqlite.HashMap.Buckets.{AllKeyed, IsKeyed}
use tee_sqlite.HashMap.Rehash.{first, top, Keyed, rehash_lists-Rehashed}

-- The array is as long as `size` says, and items stand in the list of their key.
pub record IsTable (m : HashMap) (s : Store) : Type 0 where
  pub width : length m.items ≡ m.size
  pub keyed : IsKeyed m s

append-Keyed :
    (items : List (List Item)) (n : ℕ) (s : Store)
    → Keyed items s
    → Keyed (items ++ replicate n []) s
append-Keyed items n s keyed i b h = elim (Bool-cases (ltb i (length items))) [
  | inl old ↦ keyed i b (ground (arith, get_elem?-append items (replicate n []) i))
  | inr new ↦ elim (Bool-cases (ltb (i - length items) n)) [
    | inl within ↦
        let empty : b ≡ [] = ground (
          arith,
          get_elem?-append items (replicate n []) i,
          get_elem?-replicate {A = List Item} n (i - length items) [],
        ) in
        subst (λ c. AllKeyed c i s) (sym empty) tt
    | inr past ↦
        let gone : get_elem? (replicate {A = List Item} n []) (i - length items) ≡ none =
          get_elem?-ge (replicate n []) (i - length items) (beyond past) in
        absurd (ground (arith, get_elem?-append items (replicate n []) i, gone))
  ]
]
  where
    beyond :
        ltb (i - length items) n ≡ false
        → length (replicate {A = List Item} n []) ≤ i - length items
    beyond past = ground (arith, length-replicate {A = List Item} n [])

top-append : (items : List (List Item)) (n j : ℕ) → top (items ++ replicate n []) j ≡ top items j
top-append items n j = elim (Bool-cases (ltb j (length items))) [
  | inl old ↦ ap (λ o. o >>= first) (ground (arith, get_elem?-append items (replicate n []) j))
  | inr new ↦ elim (Bool-cases (ltb (j - length items) n)) [
    | inl within ↦ ground (
      arith,
      get_elem?-append items (replicate n []) j,
      get_elem?-replicate {A = List Item} n (j - length items) [],
      get_elem?-ge items j,
    )
    | inr past ↦ ground (
      arith,
      get_elem?-append items (replicate n []) j,
      get_elem?-ge items j,
      get_elem?-ge (replicate {A = List Item} n []) (j - length items),
      length-replicate {A = List Item} n [],
    )
  ]
]

-- What a map is after it has grown.
pub record Grown (m : HashMap) (n : ℕ) (s : Store) (r : Option (HashMap × Store)) : Type 0 where
  pub table : HashMap
  pub store : Store
  pub run : r ≡ some (table, store)
  pub is_table : IsTable table store
  pub size : table.size ≡ n
  pub same : (a : ℕ) → store.ints a ≡ s.ints a
  pub tops : (j : ℕ) → top table.items j ≡ top m.items j

-- Where TEE_Realloc succeeds, hm_rehash to a size that is not smaller meets no access past the array:
-- the map has the new size, each item stands in the list of its key, no number behind a key changes,
-- and each list has the same first item as before.
pub hm_rehash-Grown :
    (m : HashMap) (n : ℕ) (s : Store)
    → IsTable m s
    → m.size ≤ n
    → Grown m n s (hm_rehash true m n s)
unfolding hm_rehash
hm_rehash-Grown m n s t le =
    let extended = m.items ++ replicate (n - m.size) [] in
    let wide : length extended ≡ n = omega (
      arith,
      t.width,
      length-append m.items (replicate {A = List Item} (n - m.size) []),
      length-replicate {A = List Item} (n - m.size) [],
    ) in
    let r =
      rehash_lists-Rehashed m.size 0 extended s (omega (arith, wide, le))
        (append-Keyed m.items (n - m.size) s t.keyed) in
    let larger : ltb n m.size ≡ false = ground arith in
    record {
      table = record m { items = r.lists; size = n };
      store = r.store;
      run = rw (larger, if◌then◌else◌, r.run) refl;
      is_table = record { width = r.width ∙ wide; keyed = r.keyed };
      size = refl;
      same = r.same;
      tops = λ j. r.tops j ∙ top-append m.items (n - m.size) j;
    }

none-Keyed : (n : ℕ) (s : Store) → Keyed (replicate n []) s
none-Keyed n s = append-Keyed [] n s (λ i b h. absurd (ground arith))

-- A map that hm_create returns has next_size lists, all empty.
pub hm_create-IsTable :
    (map_ok items_ok : Bool) (size : ℕ) (s : Store) {m : HashMap}
    → hm_create map_ok items_ok size ≡ some m
    → IsTable m s × (m.size ≡ next_size size) × ((j : ℕ) → top m.items j ≡ none)
unfolding hm_create
hm_create-IsTable false items_ok size s h = absurd (ground arith)
hm_create-IsTable true false size s h = absurd (ground arith)
hm_create-IsTable true true size s {m} h =
    let made : record { items = replicate (next_size size) []; count = 0; size = next_size size }
        ≡ m =
      some_inj h in
    subst
      (λ (m : HashMap). IsTable m s × (m.size ≡ next_size size) × ((j : ℕ) → top m.items j ≡ none))
      made
      (
        record {
          width = length-replicate (next_size size) [];
          keyed = none-Keyed (next_size size) s;
        },
        refl,
        λ j. top-append [] (next_size size) j,
      )

abbrev value_of : Option Item → ℕ
value_of none = 0
value_of (some x) = x.value

-- The value of a key, 0 for none: that of the first item in its list.
unfoldable pub view : HashMap → ℕ → ℕ
view m k = value_of (top m.items k)

pub view_of_tops : (m m' : HashMap) (j : ℕ) → top m'.items j ≡ top m.items j → view m' j ≡ view m j
unfolding view
view_of_tops m m' j h = ap value_of h
