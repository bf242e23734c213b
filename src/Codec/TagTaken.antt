-- ===== src/Codec/TagTaken.antt =====
-- A round of createMap of optee_examples/tee_sqilte/ta/codec.c: the map takes one entry of the file.
use tee_sqlite.Prelude.{
  ℕ, suc, ◌^◌, ◌≤◌, ◌<◌, ◌≡◌, ◌≢◌, refl, sym, ap, subst, ◌∙◌, Bool, false, List, [], ◌∷◌, Option,
  none, some, ◌==◌, if◌then◌else◌, arith, length, Bool-cases, inl, inr,
}
use tee_sqlite.HashMap.{Item}
use tee_sqlite.HashMap.Buckets.{AllKeyed}
use tee_sqlite.HashMap.Growth.{view, IsTable}
use tee_sqlite.HashMap.Steady.{HasKeys, AllHaveKeys, HasKeys-weaken, hm_set-Kept}
use tee_sqlite.Codec.{Tags, set_int, set_bytes}
use tee_sqlite.Codec.Pages.{record_tag}
use tee_sqlite.Codec.Sealed.{memory_there}
use tee_sqlite.Codec.TagFile.{Allocs}
use tee_sqlite.Codec.TagEntries.{Entry, tag_of}

-- TEE_Malloc gives memory of its own at each call.
pub record AreFresh (a : Allocs) : Type 0 where
  pub key_there : (i : ℕ) → a.key_at i ≢ 0
  pub tag_there : (i : ℕ) → a.tag_at i ≢ 0
  pub keys_differ : (i j : ℕ) → a.key_at i ≡ a.key_at j → i ≡ j
  pub tags_differ : (i j : ℕ) → a.tag_at i ≡ a.tag_at j → i ≡ j

-- Each entry has a number within an array of `size` lists, and a tag of 16 bytes.
abbrev pub AllFit : ℕ → List Entry → Type 0
AllFit size [] = Unit {0}
AllFit size ((k, v) ∷ es) = (k < size) × (length v ≡ 16) × AllFit size es

-- An address that no later key has.
abbrev pub NotLater : Allocs → ℕ → ℕ → Type 0
NotLater a i x = (k : ℕ) → i ≤ k → x ≢ a.key_at k

-- The map before the round `i`: it need not grow, and does not use the memory of later rounds.
pub record Ready (a : Allocs) (size i : ℕ) (t : Tags) : Type 0 where
  pub is_table : IsTable t.map t.store
  pub wide : t.map.size ≡ size
  pub few : t.map.count ≤ i
  pub keys : AllHaveKeys (NotLater a i) t.map.items
  pub values : (j k : ℕ) → i ≤ k → view t.map (suc j) ≢ a.tag_at k

AllKeyed-set_int :
    (xs : List Item) (k a n : ℕ) (t : Tags)
    → HasKeys (λ x. x ≢ a) xs
    → AllKeyed xs k t.store
    → AllKeyed xs k (set_int a n t).store
AllKeyed-set_int [] k a n t away keyed = tt
AllKeyed-set_int (x ∷ xs) k a n t away keyed =
    (ground (arith, away.0, keyed.0), AllKeyed-set_int xs k a n t away.1 keyed.1)

-- What is written at a key of later rounds does not harm the map.
pub set_int-IsTable :
    (a : Allocs) (size i k : ℕ) (t : Tags)
    → Ready a size i t
    → IsTable t.map (set_int (a.key_at i) k t).store
set_int-IsTable a size i k t ready = record {
  width = ready.is_table.width;
  keyed = λ j b h.
      AllKeyed-set_int b j (a.key_at i) k t
        (HasKeys-weaken (NotLater a i) (λ x. x ≢ a.key_at i) b (λ x later. later i (omega arith))
          (ready.keys j b h))
        (ready.is_table.keyed j b h);
}

-- A round of the loop: the map takes the entry.
pub record Taken (a : Allocs) (size i k : ℕ) (v : List ℕ) (t : Tags) (r : Option Tags)
    : Type 0 where
  pub tags : Tags
  pub run : r ≡ some tags
  pub ready : Ready a size (suc i) tags
  pub says : (j : ℕ) → tag_of tags (suc j) ≡ (if k == suc j then some v else tag_of t (suc j))

module _ (over : ℕ → ℕ → Bool) (a : Allocs) (fresh : AreFresh a) (size : ℕ) (small : size < 2 ^ 31)
    (room : (c : ℕ) → c ≤ size → over c size ≡ false) where
  tag_of-set :
      (view_there view_here mac_at k j : ℕ) (v : List ℕ) (bytes : ℕ → List ℕ)
      → mac_at ≢ 0
      → view_there ≢ mac_at
      → view_here ≡ (if k == suc j then mac_at else view_there)
      → ◌≡◌ {A = Option (List ℕ)}
          (if view_here == 0
            then none
            else some (if view_here == mac_at then v else bytes view_here))
          (if k == suc j then some v else if view_there == 0 then none else some (bytes view_there))
  tag_of-set view_there view_here mac_at k j v bytes there other h =
      rw h (elim (Bool-cases (k == suc j)) [
        | inl this ↦ rw (this) (ground arith)
        | inr that ↦ rw (that) (ground arith)
      ])

  pub record_tag-Taken :
      (i k : ℕ) (v : List ℕ) (t : Tags)
      → Ready a size i t
      → k < size
      → i < size
      → Taken a size i k v t (
          record_tag
            (memory_there over)
            (a.key_at i)
            (a.tag_at i)
            (set_bytes (a.tag_at i) v (set_int (a.key_at i) k t)))
  unfolding record_tag
  record_tag-Taken i k v t ready lt few =
      let t1 = set_int (a.key_at i) k t in
      let number : t1.store.ints (a.key_at i) ≡ k = ground arith in
      let table = set_int-IsTable a size i k t ready in
      let wide = ready.wide in
      let r =
        hm_set-Kept over (NotLater a (suc i)) t.map (a.key_at i) (a.tag_at i) t1.store table
          (fresh.key_there i) (omega (arith, number, wide)) (omega (arith, wide))
          (λ j b h.
            HasKeys-weaken (NotLater a i) (NotLater a (suc i)) b
              (λ x later m le. later m (omega arith)) (ready.keys j b h))
          (λ m le e. omega (arith, fresh.keys_differ i m e))
          (λ c le.
            subst (λ z. over c z ≡ false) (sym wide) (room c (omega (arith, ready.few, le)))) in
      let views : (j : ℕ)
          → view r.table (suc j) ≡ (if k == suc j then a.tag_at i else view t.map (suc j)) =
        λ j. r.views j ∙ ap (λ z. if z == suc j then a.tag_at i else view t.map (suc j)) number in
      record {
        tags = record (set_bytes (a.tag_at i) v t1) { map = r.table; store = r.store };
        run = rw (r.run) refl;
        ready = record {
          is_table = r.is_table;
          wide = r.size ∙ wide;
          few = omega (arith, r.count, ready.few);
          keys = r.keys;
          values = λ j m le e. elim (Bool-cases (k == suc j)) [
            | inl this ↦
                let it : a.tag_at i ≡ a.tag_at m = ground (arith, views j, e) in
                omega (arith, fresh.tags_differ i m it, le)
            | inr that ↦ ready.values j m (omega (arith, le)) (ground (arith, views j, e))
          ];
        };
        says = λ j.
            tag_of-set (view t.map (suc j)) (view r.table (suc j)) (a.tag_at i) k j v t.bytes
              (fresh.tag_there i) (ready.values j i (omega arith)) (views j);
      }
