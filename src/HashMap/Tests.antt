-- ===== src/HashMap/Tests.antt =====
-- A map of six lists, as in optee_examples/tee_sqilte/ta/hashmap.c.
use tee_sqlite.Prelude.{ℕ, refl, Bool, true, [], ◌∷◌, ◌==◌, if◌then◌else◌, arith, ltb}
use tee_sqlite.HashMap.{Store, Item}
use tee_sqlite.HashMap.Table.{HashMap}
use tee_sqlite.HashMap.Maps.{hm_set, hm_unset}
use tee_sqlite.HashMap.Removal.{IsUnset, hm_unset-IsUnset}
use tee_sqlite.HashMap.Buckets.{each-IsKeyed, IsKeyed}
use tee_sqlite.HashMap.Growth.{IsTable}
use tee_sqlite.HashMap.Update.{IsStored, hm_set-IsStored}

-- The number 3 at the addresses 100 and 200, and 0 elsewhere.
abbrev store : Store
store = record { ints = λ a. if a == 100 then 3 else if a == 200 then 3 else 0; freed = [] }

abbrev three : Item
three = record { key = 100; value = 7 }

abbrev map : HashMap
map = record { items = [] ∷ [] ∷ [] ∷ (three ∷ []) ∷ [] ∷ []; count = 1; size = 5 }

abbrev over : ℕ → ℕ → Bool
over count size = ltb size count

map-IsKeyed : IsKeyed map store
map-IsKeyed = each-IsKeyed map store (tt, (tt, (tt, ((refl, tt), (tt, tt)))))

map-IsTable : IsTable map store
map-IsTable = record { width = refl; keyed = map-IsKeyed }

hm_set-IsStored_example : IsStored map 3 9 store (hm_set over true true true map 200 9 store)
hm_set-IsStored_example =
    hm_set-IsStored over map 200 9 store map-IsTable (λ e. omega arith) (omega arith) (omega arith)
      (omega arith)

hm_unset-IsUnset_example : IsUnset map (three ∷ []) 3 store (hm_unset map 200 store)
hm_unset-IsUnset_example =
    hm_unset-IsUnset map 200 store (three ∷ []) map-IsTable (omega arith) refl
