-- ===== src/HashMap/Rehash.antt =====
-- The loops of hm_rehash of optee_examples/tee_sqilte/ta/hashmap.c: each list goes to the list of its
-- key, and keeps its first item.
use tee_sqlite.Prelude.{
  ℕ, zero, suc, ◌+◌, ◌≤◌, ◌≡◌, refl, sym, ap, subst, ◌∙◌, List, [], ◌∷◌, Option, none, some, ◌==◌,
  ◌>>=◌, if◌then◌else◌, arith, length, get_elem?, get_elem?-lt, Bool-cases, inl, inr,
}
use tee_sqlite.HashMap.{Store, Item, assign}
use tee_sqlite.HashMap.Table.{hash, set_bucket, update_item_list, move_items, rehash_lists}
use tee_sqlite.HashMap.Buckets.{
  AllKeyed, AllKeyed-ext, get_elem?-set_bucket, get_elem?-set_bucket_other, set_bucket-kept,
  assign-same,
}

abbrev pub first : List Item → Option Item
first [] = none
first (x ∷ xs) = some x

abbrev pub or_else : Option Item → Option Item → Option Item
or_else none o = o
or_else (some x) o = some x

-- The first item of list `i`.
abbrev pub top : List (List Item) → ℕ → Option Item
top items i = get_elem? items i >>= first

abbrev pub Keyed : List (List Item) → Store → Type 0
Keyed items s = (i : ℕ) (b : List Item) → get_elem? items i ≡ some b → AllKeyed b i s

set_bucket_self :
    (i : ℕ) (b : List Item) (xs : List (List Item))
    → get_elem? xs i ≡ some b
    → set_bucket i b xs ≡ xs
unfolding set_bucket
set_bucket_self i b [] h = refl
set_bucket_self zero b (x ∷ xs) h = ground arith
set_bucket_self (suc i) b (x ∷ xs) h = ap (λ t. x ∷ t) (set_bucket_self i b xs h)

set_bucket-set_bucket :
    (i : ℕ) (b c : List Item) (xs : List (List Item))
    → set_bucket i b (set_bucket i c xs) ≡ set_bucket i b xs
unfolding set_bucket
set_bucket-set_bucket i b c [] = refl
set_bucket-set_bucket zero b c (x ∷ xs) = refl
set_bucket-set_bucket (suc i) b c (x ∷ xs) = ap (λ t. x ∷ t) (set_bucket-set_bucket i b c xs)

pub length-set_bucket :
    (i : ℕ) (b : List Item) (xs : List (List Item)) → length (set_bucket i b xs) ≡ length xs
unfolding set_bucket
length-set_bucket i b [] = refl
length-set_bucket zero b (x ∷ xs) = refl
length-set_bucket (suc i) b (x ∷ xs) = ap suc (length-set_bucket i b xs)

-- An item put into the list of its key.
record Updated (b : List Item) (x : Item) (k : ℕ) (s : Store) (r : List Item × Store) : Type 0 where
  keyed : AllKeyed r.0 k s
  same : (a : ℕ) → r.1.ints a ≡ s.ints a
  leads : first r.0 ≡ or_else (first b) (some x)

update_item_list-Updated :
    (b : List Item) (x : Item) (k : ℕ) (s : Store)
    → AllKeyed b k s
    → s.ints x.key ≡ k
    → Updated b x k s (update_item_list b x s)
unfolding update_item_list
update_item_list-Updated [] x k s keyed h = record {
  keyed = (h, tt);
  same = λ a. refl;
  leads = refl;
}
update_item_list-Updated (y ∷ ys) x k s keyed h =
    let same : (a : ℕ) → (assign x.key y s).ints a ≡ s.ints a =
      λ a. assign-same x.key y s a (keyed.0 ∙ sym h) in
    elim (Bool-cases ((assign x.key y s).ints x.key == 0)) [
      | inl nothing ↦
          let r =
            update_item_list-Updated ys x k (assign x.key y s)
              (AllKeyed-ext ys k s (assign x.key y s) same keyed.1) (same x.key ∙ h) in
          rw (nothing, if◌then◌else◌)
            (record {
              keyed = (keyed.0, AllKeyed-ext _ k (assign x.key y s) s (λ a. sym (same a)) r.keyed);
              same = λ a. r.same a ∙ same a;
              leads = refl;
            })
      | inr matches ↦
          rw (matches, if◌then◌else◌) (record { keyed = keyed; same = same; leads = refl })
    ]

-- The items of one list `xs` put into the list `c` of their key `k`.
record Moved (xs c : List Item) (items : List (List Item)) (k : ℕ) (s : Store) : Type 0 where
  list : List Item
  store : Store
  run : move_items xs items s ≡ some (set_bucket k list items, store)
  keyed : AllKeyed list k s
  same : (a : ℕ) → store.ints a ≡ s.ints a
  leads : first list ≡ or_else (first c) (first xs)

move_items-cons :
    (x : Item) (xs b : List Item) (items : List (List Item)) (k : ℕ) (s : Store)
    → s.ints x.key ≡ k
    → get_elem? items k ≡ some b
    → move_items (x ∷ xs) items s
      ≡ move_items xs (set_bucket k (update_item_list b x s).0 items) (update_item_list b x s).1
unfolding move_items hash
move_items-cons x xs b items k s h there = ground arith

move_items-Moved :
    (xs c : List Item) (items : List (List Item)) (k : ℕ) (s : Store)
    → get_elem? items k ≡ some c
    → AllKeyed c k s
    → AllKeyed xs k s
    → Moved xs c items k s
unfolding move_items
move_items-Moved [] c items k s there keyed h = record {
  list = c;
  store = s;
  run = ap (λ l. some (l, s)) (sym (set_bucket_self k c items there));
  keyed = keyed;
  same = λ a. refl;
  leads = ground arith;
}
move_items-Moved (x ∷ xs) c items k s there keyed h =
    let u = update_item_list-Updated c x k s keyed h.0 in
    let b = (update_item_list c x s).0 in
    let s1 = (update_item_list c x s).1 in
    let r =
      move_items-Moved xs b (set_bucket k b items) k s1 (get_elem?-set_bucket k b c items there)
        (AllKeyed-ext b k s s1 u.same u.keyed) (AllKeyed-ext xs k s s1 u.same h.1) in
    record {
      list = r.list;
      store = r.store;
      run =
          move_items-cons x xs c items k s h.0 there
          ∙ (r.run ∙ ap (λ l. some (l, r.store)) (set_bucket-set_bucket k r.list b items));
      keyed = AllKeyed-ext r.list k s1 s (λ a. sym (u.same a)) r.keyed;
      same = λ a. r.same a ∙ u.same a;
      leads = ground (arith, r.leads, u.leads);
    }

-- The lists after a loop over some of them: the first items stay.
pub record Rehashed (items : List (List Item)) (s : Store) (r : Option (List (List Item) × Store))
    : Type 0 where
  pub lists : List (List Item)
  pub store : Store
  pub run : r ≡ some (lists, store)
  pub width : length lists ≡ length items
  pub keyed : Keyed lists store
  pub same : (a : ℕ) → store.ints a ≡ s.ints a
  pub tops : (j : ℕ) → top lists j ≡ top items j

top-set_bucket :
    (i : ℕ) (b c : List Item) (items : List (List Item)) (j : ℕ)
    → get_elem? items i ≡ some c
    → first b ≡ first c
    → top (set_bucket i b items) j ≡ top items j
top-set_bucket i b c items j there h = elim (Bool-cases (i == j)) [
  | inl at ↦
      let here : i ≡ j = ground arith in
      subst (λ k. top (set_bucket i b items) k ≡ top items k) here
        (ap (λ o. o >>= first) (get_elem?-set_bucket i b c items there)
          ∙ h
          ∙ sym (ap (λ o. o >>= first) there))
  | inr off ↦ ap (λ o. o >>= first) (get_elem?-set_bucket_other i j b items (ground arith))
]

pub rehash_lists-Rehashed :
    (n i : ℕ) (items : List (List Item)) (s : Store)
    → i + n ≤ length items
    → Keyed items s
    → Rehashed items s (rehash_lists n i items s)
unfolding rehash_lists
rehash_lists-Rehashed zero i items s le keyed = record {
  lists = items;
  store = s;
  run = refl;
  width = refl;
  keyed = keyed;
  same = λ a. refl;
  tops = λ j. refl;
}
rehash_lists-Rehashed (suc n) i items s le keyed =
    let (b, there) = get_elem?-lt items i (omega arith) in
    let cleared = set_bucket i [] items in
    let m =
      move_items-Moved b [] cleared i s (get_elem?-set_bucket i [] b items there) tt
        (keyed i b there) in
    let items' = set_bucket i m.list items in
    let run : move_items b cleared s ≡ some (items', m.store) =
      m.run ∙ ap (λ l. some (l, m.store)) (set_bucket-set_bucket i m.list [] items) in
    let r =
      rehash_lists-Rehashed n (i + 1) items' m.store
        (omega (arith, length-set_bucket i m.list items))
        (set_bucket-kept items i b m.list s m.store keyed there m.keyed m.same) in
    record {
      lists = r.lists;
      store = r.store;
      run = rw (there, run) r.run;
      width = r.width ∙ length-set_bucket i m.list items;
      keyed = r.keyed;
      same = λ a. r.same a ∙ m.same a;
      tops = λ j. r.tops j ∙ top-set_bucket i m.list b items j there m.leads;
    }
