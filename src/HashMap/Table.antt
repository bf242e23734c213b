-- ===== src/HashMap/Table.antt =====
-- The array of lists of optee_examples/tee_sqilte/ta/hashmap.c: next_size, hash, hm_create, and
-- hm_rehash with update_item_list.
use tee_sqlite.Prelude.{
  ℕ, zero, suc, ◌+◌, ◌-◌, ◌*◌, ◌%◌, ◌^◌, Bool, List, [], ◌∷◌, ◌++◌, Option, none, some, ◌==◌,
  if◌then◌else◌, get_elem?, ltb, replicate, ◌>>=◌,
}
use tee_sqlite.HashMap.{Store, Item, assign}

abbrev pub sizes : List ℕ
sizes =
    5 ∷ 13 ∷ 23 ∷ 47 ∷ 97 ∷ 193 ∷ 383 ∷ 769 ∷ 1531 ∷ 3067 ∷ 6143 ∷ 12289 ∷ 24571 ∷ 49157 ∷ 98299
    ∷ 196613 ∷ 393241 ∷ 786547 ∷ 1573111 ∷ 1668053 ∷ 1805579 ∷ 1868527 ∷ 1999993 ∷ []

-- The first of the sizes left that is larger, or the double.
unfoldable pub first_larger : ℕ → List ℕ → ℕ
first_larger size [] = (size * 2) % 2 ^ 32
first_larger size (n ∷ ns) = if ltb size n then n else first_larger size ns

unfoldable pub next_size : ℕ → ℕ
unfolding first_larger
next_size size = first_larger size sizes

-- `hashmap`, less `load_factor` and `hash_step`, which are constant: the array of lists, `count` and
-- `size`.
pub record HashMap : Type 0 where
  pub items : List (List Item)
  pub count : ℕ
  pub size : ℕ

-- `hash` ignores the step and the size.
unfoldable pub hash : ℕ → Store → ℕ
hash key s = s.ints key

-- `items[index] = list`.
unfoldable pub set_bucket : ℕ → List Item → List (List Item) → List (List Item)
set_bucket i b [] = []
set_bucket zero b (x ∷ xs) = b ∷ xs
set_bucket (suc i) b (x ∷ xs) = x ∷ set_bucket i b xs

-- `count` is 0, and each of the lists is empty. The two TEE_Malloc may fail.
unfoldable pub hm_create : Bool → Bool → ℕ → Option HashMap
unfolding next_size
hm_create map_ok items_ok size =
    if map_ok
    then if items_ok
      then some (record { items = replicate (next_size size) []; count = 0; size = next_size size })
      else none
    else none

-- `match` is put last, unless a comparison on the way holds: then it is dropped.
unfoldable pub update_item_list : List Item → Item → Store → List Item × Store
update_item_list [] match s = (match ∷ [], s)
update_item_list (x ∷ xs) match s =
    let s1 = assign match.key x s in
    let (rest, s2) = update_item_list xs match s1 in
    if s1.ints match.key == 0 then (x ∷ rest, s2) else (x ∷ xs, s1)

-- `while (temp != NULL)`: the items of one list to the list of their key. An access past the array
-- has no result.
unfoldable pub move_items : List Item → List (List Item) → Store → Option (List (List Item) × Store)
unfolding hash update_item_list set_bucket
move_items [] items s = some (items, s)
move_items (x ∷ xs) items s =
    let index = hash x.key s in
    elim (get_elem? items index) [
      | none ↦ none
      | some b ↦
          let (b', s') = update_item_list b x s in move_items xs (set_bucket index b' items) s'
    ]

-- `n` lists from the list `i` on.
unfoldable pub rehash_lists : ℕ → ℕ → List (List Item) → Store → Option (List (List Item) × Store)
unfolding move_items set_bucket
rehash_lists zero i items s = some (items, s)
rehash_lists (suc n) i items s = do
  b ← get_elem? items i
  (items', s') ← move_items b (set_bucket i [] items) s
  rehash_lists n (i + 1) items' s'

-- Where TEE_Realloc fails, `items` is NULL and the size stays.
unfoldable pub hm_rehash : Bool → HashMap → ℕ → Store → Option (HashMap × Store)
unfolding rehash_lists
hm_rehash realloc_ok m new_size s =
    if ltb new_size m.size
    then some (m, s)
    else if realloc_ok
    then (do
      (items, s') ← rehash_lists m.size 0 (m.items ++ replicate (new_size - m.size) []) s
      some (record m { items = items; size = new_size }, s'))
    else some (record m { items = [] }, s)
