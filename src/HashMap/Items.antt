-- ===== src/HashMap/Items.antt =====
-- The lists of items of optee_examples/tee_sqilte/ta/hashmap.c. A list is reached only from its
-- bucket, so the writes to `next` give a new list. TEE_Free is recorded in the store; what it does to an
-- address that is not from TEE_Malloc is not modelled.
use tee_sqlite.Prelude.{
  ℕ, Bool, true, false, List, [], ◌∷◌, Option, none, some, ◌==◌, if◌then◌else◌,
}
use tee_sqlite.HashMap.{Store, Item, free, assign}

-- The list, what is added to `*count`, and the store. `item_ok` and `key_ok` say whether the two
-- TEE_Malloc succeed.
unfoldable pub set_item : Bool → Bool → List Item → ℕ → ℕ → Store → List Item × ℕ × Store
set_item item_ok key_ok [] key value s =
    if key == 0
    then ([], 0, s)
    else if item_ok
    then (if key_ok then (record { key = key; value = value } ∷ [], 1, s) else ([], 0, s))
    else ([], 0, s)
set_item item_ok key_ok (x ∷ xs) key value s =
    let s1 = assign key x s in
    let (rest, n, s2) = set_item item_ok key_ok xs key value s1 in
    if key == 0
    then ([], 0, s)
    else if s1.ints key == 0
    then (x ∷ rest, n, s2)
    else if x.value == value
    then (x ∷ xs, 0, s1)
    else (record x { value = value } ∷ xs, 0, free x.value s1)

unfoldable pub get_item : List Item → ℕ → Store → Option Item × Store
get_item [] key s = (none, s)
get_item (x ∷ xs) key s =
    let s1 = assign key x s in
    let rest = get_item xs key s1 in if s1.ints key == 0 then rest else (some x, s1)

-- The last part is what is taken off `*count`. The item itself is freed too.
unfoldable pub remove_item : List Item → ℕ → Store → List Item × ℕ × Store
remove_item [] key s = ([], 0, s)
remove_item (x ∷ xs) key s =
    let s1 = assign key x s in
    let (rest, n, s2) = remove_item xs key s1 in
    if s1.ints key == 0 then (x ∷ rest, n, s2) else (xs, 1, free x.value (free x.key s1))

unfoldable pub key_exists : List Item → ℕ → Store → Bool × Store
key_exists [] key s = (false, s)
key_exists (x ∷ xs) key s =
    let s1 = assign key x s in
    let rest = key_exists xs key s1 in if s1.ints key == 0 then rest else (true, s1)
