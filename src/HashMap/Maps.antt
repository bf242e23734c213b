-- ===== src/HashMap/Maps.antt =====
-- The operations on a map of optee_examples/tee_sqilte/ta/hashmap.c: hm_get, hm_set, hm_unset and
-- hm_isset.
use tee_sqlite.Prelude.{
  ℕ, ◌+◌, ◌-◌, ◌%◌, ◌^◌, Bool, true, false, Option, none, some, ◌==◌, if◌then◌else◌, get_elem?,
  ◌>>=◌,
}
use tee_sqlite.HashMap.{Store}
use tee_sqlite.HashMap.Items.{set_item, get_item, remove_item, key_exists}
use tee_sqlite.HashMap.Table.{HashMap, hash, set_bucket, next_size, hm_rehash}

-- An access past the array has no result: `none`. The value is 0 for NULL.
unfoldable pub hm_get : HashMap → ℕ → Store → Option (ℕ × Store)
unfolding hash
hm_get m key s = if key == 0 then some (0, s) else elim (get_elem? m.items (hash key s)) [
  | none ↦ none
  | some bucket ↦
      let (found, s') = get_item bucket key s in
      some (elim found [ none ↦ 0 | some x ↦ x.value ], s')
]

unfoldable pub hm_isset : HashMap → ℕ → Store → Option (Bool × Store)
unfolding hash
hm_isset m key s = elim (get_elem? m.items (hash key s)) [
  | none ↦ none
  | some bucket ↦ some (key_exists bucket key s)
]

-- `counter` is -1 where an item is removed.
unfoldable pub hm_unset : HashMap → ℕ → Store → Option (HashMap × Store)
unfolding hash
hm_unset m key s = elim (get_elem? m.items (hash key s)) [
  | none ↦ none
  | some bucket ↦
      let (rest, n, s') = remove_item bucket key s in
      some (
        record m {
          items = set_bucket (hash key s) rest m.items;
          count = (m.count + (2 ^ 32 - n)) % 2 ^ 32;
        },
        s',
      )
]

-- SUCCESS or FAIL, the map and the store. `over` is the test of the load factor.
unfoldable pub hm_set :
    (ℕ → ℕ → Bool) → Bool → Bool → Bool → HashMap → ℕ → ℕ → Store → Option (Bool × HashMap × Store)
unfolding hash set_bucket hm_rehash
hm_set over item_ok key_ok realloc_ok m key value s =
    if key == 0 then some (false, m, s) else elim (get_elem? m.items (hash key s)) [
      | none ↦ none
      | some bucket ↦
          let (list, n, s') = set_item item_ok key_ok bucket key value s in
          let m' = record m {
            items = set_bucket (hash key s) list m.items;
            count = (m.count + n) % 2 ^ 32;
          } in
          if over m'.count m'.size
          then (do
            (grown, s2) ← hm_rehash realloc_ok m' (next_size m'.size) s'
            some (true, grown, s2))
          else some (true, m', s')
    ]
