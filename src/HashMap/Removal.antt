-- ===== src/HashMap/Removal.antt =====
-- hm_unset of optee_examples/tee_sqilte/ta/hashmap.c for a pointer to a number other than 0.
use tee_sqlite.Prelude.{
  ℕ, ◌+◌, ◌-◌, ◌%◌, ◌^◌, ◌<◌, ◌≡◌, ◌≢◌, refl, ap, ◌∙◌, List, [], ◌∷◌, Option, some, ◌==◌,
  if◌then◌else◌, arith, get_elem?, drop, false, subst, sym,
}
use tee_sqlite.HashMap.{Store, Item, assign}
use tee_sqlite.HashMap.Items.{remove_item}
use tee_sqlite.HashMap.Table.{HashMap, set_bucket}
use tee_sqlite.HashMap.Maps.{hm_unset}
use tee_sqlite.HashMap.Growth.{IsTable}
use tee_sqlite.HashMap.Rehash.{length-set_bucket}
use tee_sqlite.HashMap.Buckets.{
  AllKeyed, get_elem?-set_bucket, get_elem?-set_bucket_other, set_bucket-kept, assign-same,
}

-- How many items hm_unset takes out of a list, and what it frees: the value and the key of the first
-- item.
abbrev pub taken : List Item → ℕ
taken [] = 0
taken (x ∷ xs) = 1

abbrev pub freed_with : List Item → List ℕ → List ℕ
freed_with [] freed = freed
freed_with (x ∷ xs) freed = x.value ∷ x.key ∷ freed

-- What remove_item leaves of the list of its key.
record Removed (b : List Item) (k : ℕ) (s : Store) (r : List Item × ℕ × Store) : Type 0 where
  list : r.0 ≡ drop 1 b
  count : r.1 ≡ taken b
  same : (a : ℕ) → r.2.ints a ≡ s.ints a
  freed : r.2.freed ≡ freed_with b s.freed

remove_item-Removed :
    (b : List Item) (key : ℕ) (s : Store)
    → 0 < s.ints key
    → AllKeyed b (s.ints key) s
    → Removed b (s.ints key) s (remove_item b key s)
unfolding remove_item assign
remove_item-Removed [] key s pos keyed = record {
  list = refl;
  count = refl;
  same = λ a. refl;
  freed = refl;
}
remove_item-Removed (x ∷ xs) key s pos keyed =
    let matches : ((assign key x s).ints key == 0) ≡ false =
      ground (arith, assign-same key x s key keyed.0) in
    rw (matches, if◌then◌else◌)
      (record {
        list = refl;
        count = refl;
        same = λ a. assign-same key x s a keyed.0;
        freed = refl;
      })

drop-AllKeyed : (b : List Item) (k : ℕ) (s : Store) → AllKeyed b k s → AllKeyed (drop 1 b) k s
drop-AllKeyed [] k s keyed = tt
drop-AllKeyed (x ∷ xs) k s keyed = keyed.1

-- What hm_unset leaves of a map whose list `b` is that of the number `k`.
pub record IsUnset (m : HashMap) (b : List Item) (k : ℕ) (s : Store) (r : Option (HashMap × Store))
    : Type 0 where
  pub table : HashMap
  pub store : Store
  pub run : r ≡ some (table, store)
  pub is_table : IsTable table store
  pub size : table.size ≡ m.size
  pub count : table.count ≡ (m.count + (2 ^ 32 - taken b)) % 2 ^ 32
  pub list : get_elem? table.items k ≡ some (drop 1 b)
  pub others : (j : ℕ) → k ≢ j → get_elem? table.items j ≡ get_elem? m.items j
  pub same : (a : ℕ) → store.ints a ≡ s.ints a
  pub freed : store.freed ≡ freed_with b s.freed

-- hm_unset of a key whose number is other than 0 and within the array, where items stand in the
-- list of their key: it takes the first item out of the list of that number and counts one item
-- less, modulo 2 ^ 32, if there was one; it frees that item's value and key and nothing else but
-- the item; the other lists, the size and the numbers behind keys are as before; and items still
-- stand in the list of their key.
pub hm_unset-IsUnset :
    (m : HashMap) (key : ℕ) (s : Store) (b : List Item)
    → IsTable m s
    → 0 < s.ints key
    → get_elem? m.items (s.ints key) ≡ some b
    → IsUnset m b (s.ints key) s (hm_unset m key s)
unfolding hm_unset
hm_unset-IsUnset m key s b t pos there =
    let k = s.ints key in
    let keyed = t.keyed k b there in
    let out = remove_item b key s in
    let r = remove_item-Removed b key s pos keyed in
    let put : get_elem? (set_bucket k out.0 m.items) k ≡ some out.0 =
      get_elem?-set_bucket k out.0 b m.items there in
    record {
      table = record m {
        items = set_bucket k out.0 m.items;
        count = (m.count + (2 ^ 32 - out.1)) % 2 ^ 32;
      };
      store = out.2;
      run = rw (hm_unset, there) refl;
      is_table = record {
        width = length-set_bucket k out.0 m.items ∙ t.width;
        keyed =
            set_bucket-kept m.items k b out.0 s out.2 t.keyed there
              (subst (λ l. AllKeyed l k s) (sym r.list) (drop-AllKeyed b k s keyed)) r.same;
      };
      size = refl;
      count = ap (λ n. (m.count + (2 ^ 32 - n)) % 2 ^ 32) r.count;
      list = put ∙ ap some r.list;
      others = λ j ne. get_elem?-set_bucket_other k j out.0 m.items ne;
      same = r.same;
      freed = r.freed;
    }
