-- ===== src/Codec/TagRestore.antt =====
-- closeMap and then createMap of optee_examples/tee_sqilte/ta/codec.c, in another session of the trusted
-- application: the tags that a map keeps over the file of tags.
use tee_sqlite.Prelude.{ℕ, suc, ◌≤◌, ◌<◌, ◌≡◌, ◌≢◌, List, [], ◌∷◌, Option, some, get_elem?, length}
use tee_sqlite.HashMap.{Item}
use tee_sqlite.HashMap.Table.{HashMap}
use tee_sqlite.HashMap.Growth.{IsTable}
use tee_sqlite.HashMap.Clear.{total}
use tee_sqlite.Codec.{Tags}
use tee_sqlite.Codec.TagFile.{array_size}
use tee_sqlite.Codec.TagEntries.{tag_of}

-- Each item has a value, which points to a tag of 16 bytes.
abbrev pub HasTags : Tags → List Item → Type 0
HasTags t [] = Unit {0}
HasTags t (x ∷ xs) = (x.value ≢ 0) × (length (t.bytes x.value) ≡ 16) × HasTags t xs

-- A map that fits the file of tags: it counts its items, fewer than the arrays of createMap have
-- elements, it has no more lists than the map that createMap makes, and no number other than 0
-- stands in it twice.
pub record IsStorable (t : Tags) : Type 0 where
  pub is_table : IsTable t.map t.store
  pub counted : t.map.count ≡ total t.map.items
  pub few : t.map.count < array_size
  pub narrow : t.map.size ≤ 769
  pub tags : (j : ℕ) (b : List Item) → get_elem? t.map.items j ≡ some b → HasTags t b
  pub single : (j : ℕ) (b : List Item) → get_elem? t.map.items (suc j) ≡ some b → length b ≤ 1

-- What createMap leaves after closeMap: a map that has the same tags.
pub record Restored {S : Type 0} (t : Tags) (r : Option (Option Tags × S)) : Type 0 where
  pub tags : Tags
  pub state : S
  pub run : r ≡ some (some tags, state)
  pub is_table : IsTable tags.map tags.store
  pub same : (k : ℕ) → 0 < k → k < t.map.size → tag_of tags k ≡ tag_of t k
