-- ===== src/HashMap.antt =====
-- The hash map of optee_examples/tee_sqilte/ta/hashmap.c, in which the page codec keeps a tag for
-- each page number. A key is a pointer to an `int`, and items keep the pointer that they are given, so
-- the numbers behind the keys are a store. Comparisons of keys in the code are assignments,
-- `*key = *(list->key)`, whose value is tested.
pub mod Items
pub mod Table
pub mod Maps
pub mod Buckets
pub mod Rehash
pub mod Growth
pub mod Update
pub mod ZeroKey
pub mod Lookup
pub mod Clear
pub mod Dump
pub mod Steady
pub mod Removal
pub mod Sizes
mod Tests
use tee_sqlite.Prelude.{ℕ, List, ◌∷◌, ◌==◌, if◌then◌else◌}

-- The numbers behind the keys, by address, and the addresses that TEE_Free was given.
pub record Store : Type 0 where
  pub ints : ℕ → ℕ
  pub freed : List ℕ

-- `struct node`, less `next`, which is the order of a list. A value is an address.
pub record Item : Type 0 where
  pub key : ℕ
  pub value : ℕ

abbrev pub free : ℕ → Store → Store
free a s = record s { freed = a ∷ s.freed }

-- `*key = *(item->key)`.
unfoldable pub assign : ℕ → Item → Store → Store
assign key x s = record s { ints = λ a. if a == key then s.ints (x.key) else s.ints a }
