-- ===== src/HashMap/Update.antt =====
-- hm_set of optee_examples/tee_sqilte/ta/hashmap.c. That comparisons assign does no
-- harm to keys other than 0 within the array: `hash` is the key itself, so a bucket holds one key.
use tee_sqlite.Prelude.{
  ℕ, ◌+◌, ◌%◌, ◌^◌, ◌≤◌, ◌<◌, ◌≡◌, ◌≢◌, refl, sym, ap, subst, ◌∙◌, Bool, true, false, List, [], ◌∷◌,
  some, ◌==◌, if◌then◌else◌, arith, get_elem?, get_elem?-lt, ◌>>=◌, Option, Bool-cases, inl, inr,
}
use tee_sqlite.HashMap.{Store, Item, assign}
use tee_sqlite.HashMap.Items.{set_item}
use tee_sqlite.HashMap.Table.{HashMap, set_bucket, next_size, hm_rehash}
use tee_sqlite.HashMap.Maps.{hm_set}
use tee_sqlite.HashMap.Growth.{view, view_of_tops, IsTable, hm_rehash-Grown}
use tee_sqlite.HashMap.Rehash.{length-set_bucket}
use tee_sqlite.HashMap.Sizes.{next_size_gt}
use tee_sqlite.HashMap.Buckets.{
  AllKeyed, get_elem?-set_bucket, get_elem?-set_bucket_other, set_bucket-kept, assign-same,
}

-- What set_item leaves in a bucket for a key other than 0.
record Placed (b : List Item) (k value : ℕ) (s : Store) (r : List Item × ℕ × Store) : Type 0 where
  first : Item
  rest : List Item
  list : r.0 ≡ first ∷ rest
  stored : first.value ≡ value
  at_most_one : r.1 ≤ 1
  same : (a : ℕ) → r.2.ints a ≡ s.ints a
  keyed : AllKeyed (first ∷ rest) k s

set_item-Placed :
    (b : List Item) (key value : ℕ) (s : Store)
    → key ≢ 0
    → 0 < s.ints key
    → AllKeyed b (s.ints key) s
    → Placed b (s.ints key) value s (set_item true true b key value s)
unfolding set_item
set_item-Placed [] key value s ne pos keyed =
    let present : (key == 0) ≡ false = ground arith in
    rw (present, if◌then◌else◌)
      (record {
        first = record { key = key; value = value };
        rest = [];
        list = refl;
        stored = refl;
        at_most_one = omega arith;
        same = λ a. refl;
        keyed = (refl, tt);
      })
set_item-Placed (x ∷ xs) key value s ne pos keyed =
    let present : (key == 0) ≡ false = ground arith in
    let matches : ((assign key x s).ints key == 0) ≡ false =
      ground (arith, assign-same key x s key keyed.0) in
    rw (present, if◌then◌else◌, matches, if◌then◌else◌)
      (elim (Bool-cases (x.value == value)) [
        | inl old ↦
            rw (old, if◌then◌else◌)
              (record {
                first = x;
                rest = xs;
                list = refl;
                stored = ground arith;
                at_most_one = omega arith;
                same = λ a. assign-same key x s a keyed.0;
                keyed = keyed;
              })
        | inr changed ↦
            rw (changed, if◌then◌else◌)
              (record {
                first = record { key = x.key; value = value };
                rest = xs;
                list = refl;
                stored = refl;
                at_most_one = omega arith;
                same = λ a. assign-same key x s a keyed.0;
                keyed = keyed;
              })
      ])

view-set_bucket :
    (m : HashMap) (k count : ℕ) (x : Item) (xs b : List Item) (j : ℕ)
    → get_elem? m.items k ≡ some b
    → view (record m { items = set_bucket k (x ∷ xs) m.items; count = count }) j
      ≡ (if k == j then x.value else view m j)
unfolding view
view-set_bucket m k count x xs b j there = elim (Bool-cases (k == j)) [
  | inl at ↦
      let here : k ≡ j = ground arith in
      ground (
        arith,
        get_elem?-set_bucket k (x ∷ xs) b m.items there,
        ap (get_elem? (set_bucket k (x ∷ xs) m.items)) here,
      )
  | inr off ↦
      let other : k ≢ j = ground arith in
      ground (arith, get_elem?-set_bucket_other k j (x ∷ xs) m.items other)
]

-- What the end of hm_set leaves of a map, whether it grows or not.
pub record Finished (m : HashMap) (s : Store) (r : Option (Bool × HashMap × Store)) : Type 0 where
  pub table : HashMap
  pub store : Store
  pub run : r ≡ some (true, table, store)
  pub is_table : IsTable table store
  pub larger : m.size ≤ table.size
  pub bounded : table.size ≤ next_size m.size
  pub same : (a : ℕ) → store.ints a ≡ s.ints a
  pub views : (j : ℕ) → view table j ≡ view m j

pub hm_rehash-Finished :
    (over : ℕ → ℕ → Bool) (m : HashMap) (s : Store)
    → IsTable m s
    → 0 < m.size
    → m.size < 2 ^ 31
    → Finished m s (
        if over m.count m.size
        then (do (grown, s2) ← hm_rehash true m (next_size m.size) s; some (true, grown, s2))
        else some (true, m, s))
hm_rehash-Finished over m s t pos small = elim (Bool-cases (over m.count m.size)) [
  | inl full ↦
      let larger : m.size < next_size m.size = next_size_gt m.size pos small in
      let g = hm_rehash-Grown m (next_size m.size) s t (omega (arith, larger)) in
      record {
        table = g.table;
        store = g.store;
        run = rw (full, if◌then◌else◌, g.run) refl;
        is_table = g.is_table;
        larger = omega (arith, larger, g.size);
        bounded = omega (arith, g.size);
        same = g.same;
        views = λ j. view_of_tops m g.table j (g.tops j);
      }
  | inr room ↦ record {
    table = m;
    store = s;
    run = rw (room, if◌then◌else◌) refl;
    is_table = t;
    larger = omega arith;
    bounded = omega (arith, next_size_gt m.size pos small);
    same = λ a. refl;
    views = λ j. refl;
  }
]

-- What hm_set leaves.
pub record IsStored (m : HashMap) (k value : ℕ) (s : Store) (r : Option (Bool × HashMap × Store))
    : Type 0 where
  pub table : HashMap
  pub store : Store
  pub run : r ≡ some (true, table, store)
  pub is_table : IsTable table store
  pub larger : m.size ≤ table.size
  pub bounded : table.size ≤ next_size m.size
  pub same : (a : ℕ) → store.ints a ≡ s.ints a
  pub views : (j : ℕ) → view table j ≡ (if k == j then value else view m j)

-- hm_set refines the update of a function: for a number other than 0 within an array of fewer than
-- 2 ^ 31 lists, where memory is there, it succeeds, whether the map grows or not, it changes the
-- value of that number and of no other, it changes no number behind a key, and items still stand in
-- the list of their key.
pub hm_set-IsStored :
    (over : ℕ → ℕ → Bool) (m : HashMap) (key value : ℕ) (s : Store)
    → IsTable m s
    → key ≢ 0
    → 0 < s.ints key
    → s.ints key < m.size
    → m.size < 2 ^ 31
    → IsStored m (s.ints key) value s (hm_set over true true true m key value s)
unfolding hm_set
hm_set-IsStored over m key value s t ne pos lt small =
    let k = s.ints key in
    let (b, there) = get_elem?-lt m.items k (omega (arith, t.width)) in
    let set = set_item true true b key value s in
    let r = set_item-Placed b key value s ne pos (t.keyed k b there) in
    let m' = record m { items = set_bucket k set.0 m.items; count = (m.count + set.1) % 2 ^ 32 } in
    let table : IsTable m' set.2 = record {
      width = length-set_bucket k set.0 m.items ∙ t.width;
      keyed =
          set_bucket-kept m.items k b set.0 s set.2 t.keyed there
            (subst (λ l. AllKeyed l k s) (sym r.list) r.keyed) r.same;
    } in
    let present : (key == 0) ≡ false = ground arith in
    let views : (j : ℕ) → view m' j ≡ (if k == j then value else view m j) = λ j.
      ap (λ l. view (record m { items = set_bucket k l m.items; count = m'.count }) j) r.list
      ∙ view-set_bucket m k m'.count r.first r.rest b j there
      ∙ ap (λ v. if k == j then v else view m j) r.stored in
    let f = hm_rehash-Finished over m' set.2 table (omega (arith, lt)) small in
    record {
      table = f.table;
      store = f.store;
      run = rw (present, if◌then◌else◌, there) f.run;
      is_table = f.is_table;
      larger = f.larger;
      bounded = f.bounded;
      same = λ a. f.same a ∙ r.same a;
      views = λ j. f.views j ∙ views j;
    }
