-- ===== src/HashMap/ZeroKey.antt =====
-- hm_set of optee_examples/tee_sqilte/ta/hashmap.c for a pointer to 0.
use tee_sqlite.Prelude.{
  ℕ, suc, ◌+◌, ◌%◌, ◌^◌, ◌≤◌, ◌<◌, ◌≡◌, ◌≢◌, refl, sym, ap, subst, ◌∙◌, Bool, true, false, List, [],
  ◌∷◌, some, ◌==◌, if◌then◌else◌, arith, get_elem?-lt, ◌>>=◌, Option,
}
use tee_sqlite.HashMap.{Store, Item, assign}
use tee_sqlite.HashMap.Items.{set_item}
use tee_sqlite.HashMap.Table.{HashMap, set_bucket, next_size}
use tee_sqlite.HashMap.Maps.{hm_set}
use tee_sqlite.HashMap.Growth.{view, view_of_tops, IsTable}
use tee_sqlite.HashMap.Rehash.{first, length-set_bucket}
use tee_sqlite.HashMap.Buckets.{
  AllKeyed, AllKeyed-ext, get_elem?-set_bucket_other, set_bucket-kept, assign-same,
}
use tee_sqlite.HashMap.Update.{hm_rehash-Finished}

-- A key 0 in a list of keys 0: no comparison holds, and the item is put last.
record Appended (k : ℕ) (s : Store) (r : List Item × ℕ × Store) : Type 0 where
  keyed : AllKeyed r.0 k s
  same : (a : ℕ) → r.2.ints a ≡ s.ints a

set_item-Appended :
    (b : List Item) (key value : ℕ) (s : Store)
    → key ≢ 0
    → s.ints key ≡ 0
    → AllKeyed b (s.ints key) s
    → Appended (s.ints key) s (set_item true true b key value s)
unfolding set_item
set_item-Appended [] key value s ne h keyed =
    let present : (key == 0) ≡ false = ground arith in
    rw (present, if◌then◌else◌) (record { keyed = (refl, tt); same = λ a. refl })
set_item-Appended (x ∷ xs) key value s ne h keyed =
    let present : (key == 0) ≡ false = ground arith in
    let s1 = assign key x s in
    let same : (a : ℕ) → s1.ints a ≡ s.ints a = λ a. assign-same key x s a keyed.0 in
    let nothing : (s1.ints key == 0) ≡ true = ground (arith, same key) in
    let r =
      set_item-Appended xs key value s1 ne (same key ∙ h)
        (subst (λ k. AllKeyed xs k s1) (sym (same key)) (AllKeyed-ext xs _ s s1 same keyed.1)) in
    rw (present, if◌then◌else◌, nothing, if◌then◌else◌)
      (record {
        keyed = (
          keyed.0,
          subst (λ k. AllKeyed (set_item true true xs key value s1).0 k s) (same key)
              (AllKeyed-ext _ _ s1 s (λ a. sym (same a)) r.keyed),
        );
        same = λ a. r.same a ∙ same a;
      })

-- What hm_set leaves for a pointer to 0.
pub record IsZeroStored (m : HashMap) (s : Store) (r : Option (Bool × HashMap × Store))
    : Type 0 where
  pub table : HashMap
  pub store : Store
  pub run : r ≡ some (true, table, store)
  pub is_table : IsTable table store
  pub larger : m.size ≤ table.size
  pub bounded : table.size ≤ next_size m.size
  pub same : (a : ℕ) → store.ints a ≡ s.ints a
  pub views : (j : ℕ) → view table (suc j) ≡ view m (suc j)

-- For a pointer to 0, where memory is there, hm_set succeeds, changes the value of no other number
-- and no number behind a key, and items still stand in the list of their key.
pub hm_set-IsZeroStored :
    (over : ℕ → ℕ → Bool) (m : HashMap) (key value : ℕ) (s : Store)
    → IsTable m s
    → key ≢ 0
    → s.ints key ≡ 0
    → 0 < m.size
    → m.size < 2 ^ 31
    → IsZeroStored m s (hm_set over true true true m key value s)
unfolding hm_set view
hm_set-IsZeroStored over m key value s t ne h pos small =
    let k = s.ints key in
    let (b, there) = get_elem?-lt m.items k (omega (arith, t.width)) in
    let set = set_item true true b key value s in
    let r = set_item-Appended b key value s ne h (t.keyed k b there) in
    let m' = record m { items = set_bucket k set.0 m.items; count = (m.count + set.1) % 2 ^ 32 } in
    let present : (key == 0) ≡ false = ground arith in
    let table : IsTable m' set.2 = record {
      width = length-set_bucket k set.0 m.items ∙ t.width;
      keyed = set_bucket-kept m.items k b set.0 s set.2 t.keyed there r.keyed r.same;
    } in
    let f = hm_rehash-Finished over m' set.2 table pos small in
    record {
      table = f.table;
      store = f.store;
      run = rw (present, if◌then◌else◌, there) f.run;
      is_table = f.is_table;
      larger = f.larger;
      bounded = f.bounded;
      same = λ a. f.same a ∙ r.same a;
      views = λ j.
          f.views (suc j)
          ∙ view_of_tops m m' (suc j) (
              ap (λ o. o >>= first)
                (get_elem?-set_bucket_other k (suc j) set.0 m.items (λ e. omega (arith, h))));
    }
