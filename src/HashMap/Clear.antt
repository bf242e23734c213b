-- ===== src/HashMap/Clear.antt =====
-- remove_items, hm_clear and hm_delete of optee_examples/tee_sqilte/ta/hashmap.c.
use tee_sqlite.Prelude.{
  ℕ, zero, suc, ◌+◌, ◌-◌, ◌%◌, ◌^◌, ◌≤◌, ◌<◌, ◌≡◌, refl, ap, subst, ◌∙◌, List, [], ◌∷◌, Option,
  some, get_elem?, get_elem?-lt, some_inj, Bool-cases, inl, inr, ◌==◌, length, arith, ◌>>=◌,
}
use tee_sqlite.HashMap.{Store, Item, free}
use tee_sqlite.HashMap.Table.{HashMap, set_bucket}
use tee_sqlite.HashMap.Buckets.{get_elem?-set_bucket, get_elem?-set_bucket_other}
use tee_sqlite.HashMap.Rehash.{length-set_bucket}

-- From the last item to the first: the key, the value and the item are freed; `free_value` is what
-- frees a value. The second part is what is taken off `*count`. The list is NULL afterwards.
unfoldable pub remove_items : (ℕ → Store → Store) → List Item → Store → ℕ × Store
remove_items free_value [] s = (0, s)
remove_items free_value (x ∷ xs) s =
    let (n, s1) = remove_items free_value xs s in (suc n, free_value x.value (free x.key s1))

-- The loop of hm_clear over `n` lists from `i` on. An access past the array has no result.
unfoldable pub clear_lists :
    (ℕ → Store → Store) → ℕ → ℕ → List (List Item) → Store → Option (List (List Item) × ℕ × Store)
unfolding remove_items set_bucket
clear_lists free_value zero i items s = some (items, 0, s)
clear_lists free_value (suc n) i items s = do
  b ← get_elem? items i
  (items', k, s') ←
      clear_lists free_value n (i + 1) (set_bucket i [] items) (remove_items free_value b s).1
  some (items', (remove_items free_value b s).0 + k, s')

-- `counter` is minus the number of items, an int, which is added to the unsigned count.
unfoldable pub hm_clear : (ℕ → Store → Store) → HashMap → Store → Option (HashMap × Store)
unfolding clear_lists
hm_clear free_value m s = do
  (items, k, s') ← clear_lists free_value m.size 0 m.items s
  some (record m { items = items; count = (m.count + (2 ^ 32 - k % 2 ^ 32)) % 2 ^ 32 }, s')

-- The array and the map are freed; `items_at` and `map_at` are where they stand.
unfoldable pub hm_delete : (ℕ → Store → Store) → ℕ → ℕ → HashMap → Store → Option Store
unfolding hm_clear
hm_delete free_value items_at map_at m s = do
  (cleared, s') ← hm_clear free_value m s
  some (free map_at (free items_at s'))

-- The number of items in all lists.
abbrev pub total : List (List Item) → ℕ
total [] = 0
total (b ∷ bs) = length b + total bs

remove_items-length :
    (free_value : ℕ → Store → Store) (b : List Item) (s : Store)
    → (remove_items free_value b s).0 ≡ length b
unfolding remove_items
remove_items-length free_value [] s = refl
remove_items-length free_value (x ∷ xs) s = ap suc (remove_items-length free_value xs s)

total-set_bucket :
    (i : ℕ) (b : List Item) (items : List (List Item))
    → get_elem? items i ≡ some b
    → length b + total (set_bucket i [] items) ≡ total items
unfolding set_bucket
total-set_bucket i b [] h = absurd (ground arith)
total-set_bucket zero b (x ∷ xs) h = ground arith
total-set_bucket (suc i) b (x ∷ xs) h = omega (arith, total-set_bucket i b xs h)

-- What the loop leaves: as many items fewer as it counts.
record Cleared (n i : ℕ) (items : List (List Item)) (r : Option (List (List Item) × ℕ × Store))
    : Type 0 where
  lists : List (List Item)
  removed : ℕ
  store : Store
  run : r ≡ some (lists, removed, store)
  width : length lists ≡ length items
  left : removed + total lists ≡ total items
  emptied : (j : ℕ) → i ≤ j → j < i + n → get_elem? lists j ≡ some []
  others : (j : ℕ) → j < i → get_elem? lists j ≡ get_elem? items j

clear_lists-Cleared :
    (free_value : ℕ → Store → Store) (n i : ℕ) (items : List (List Item)) (s : Store)
    → i + n ≤ length items
    → Cleared n i items (clear_lists free_value n i items s)
unfolding clear_lists
clear_lists-Cleared free_value zero i items s le = record {
  lists = items;
  removed = 0;
  store = s;
  run = refl;
  width = refl;
  left = omega arith;
  emptied = λ j ge lt. absurd (omega (arith, ge, lt));
  others = λ j lt. refl;
}
clear_lists-Cleared free_value (suc n) i items s le =
    let (b, there) = get_elem?-lt items i (omega arith) in
    let r =
      clear_lists-Cleared free_value n (i + 1) (set_bucket i [] items)
        (remove_items free_value b s).1 (omega (arith, length-set_bucket i [] items)) in
    record {
      lists = r.lists;
      removed = (remove_items free_value b s).0 + r.removed;
      store = r.store;
      run = rw (there, r.run) refl;
      width = r.width ∙ length-set_bucket i [] items;
      left =
          omega
            (arith, r.left, remove_items-length free_value b s, total-set_bucket i b items there);
      emptied = λ j ge lt. elim (Bool-cases (i == j)) [
        | inl at ↦
            let here : i ≡ j = ground arith in
            subst (λ k. get_elem? r.lists k ≡ some []) here
              (r.others i (omega arith) ∙ get_elem?-set_bucket i [] b items there)
        | inr off ↦ r.emptied j (ground (arith, ge)) (omega (arith, lt))
      ];
      others = λ j lt.
          r.others j (omega (arith, lt))
          ∙ get_elem?-set_bucket_other i j [] items (λ e. omega (arith, e, lt));
    }

total-empty :
    (lists : List (List Item))
    → ((j : ℕ) → j < length lists → get_elem? lists j ≡ some [])
    → total lists ≡ 0
total-empty [] h = refl
total-empty (b ∷ bs) h =
    let first : b ≡ [] = some_inj (h 0 (omega arith)) in
    omega (arith, ap length first, total-empty bs (λ j lt. h (suc j) (omega (arith, lt))))

-- What hm_clear leaves: a map of as many lists, all empty, that counts no item.
pub record IsCleared (m : HashMap) (r : Option (HashMap × Store)) : Type 0 where
  pub table : HashMap
  pub store : Store
  pub run : r ≡ some (table, store)
  pub size : table.size ≡ m.size
  pub width : length table.items ≡ m.size
  pub empty : (j : ℕ) → j < m.size → get_elem? table.items j ≡ some []
  pub count : table.count ≡ 0

-- hm_clear of a map whose array is as long as its size says, and which counts its items, empties each
-- list, whatever frees the values, and counts none.
pub hm_clear-IsCleared :
    (free_value : ℕ → Store → Store) (m : HashMap) (s : Store)
    → length m.items ≡ m.size
    → m.count ≡ total m.items % 2 ^ 32
    → IsCleared m (hm_clear free_value m s)
unfolding hm_clear
hm_clear-IsCleared free_value m s wide counted =
    let r = clear_lists-Cleared free_value m.size 0 m.items s (omega (arith, wide)) in
    let none_left : total r.lists ≡ 0 =
      total-empty r.lists (λ j lt. r.emptied j (omega arith) (omega (arith, lt, r.width, wide))) in
    let all : r.removed ≡ total m.items = omega (arith, r.left, none_left) in
    record {
      table = record m {
        items = r.lists;
        count = (m.count + (2 ^ 32 - r.removed % 2 ^ 32)) % 2 ^ 32;
      };
      store = r.store;
      run = rw (r.run) refl;
      size = refl;
      width = r.width ∙ wide;
      empty = λ j lt. r.emptied j (omega arith) (omega (arith, lt));
      count = rw (all, counted) (omega arith);
    }
