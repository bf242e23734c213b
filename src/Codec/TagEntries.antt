-- ===== src/Codec/TagEntries.antt =====
-- The records of the file of tags of optee_examples/tee_sqilte/ta/codec.c: a number of four bytes and
-- a tag of 16 bytes for each item of the map, in the order of the lists.
use tee_sqlite.Prelude.{
  ℕ, zero, suc, ◌+◌, ◌^◌, ◌<◌, ◌≡◌, ◌≢◌, refl, ap, subst, ◌∙◌, List, [], ◌∷◌, ◌++◌, Option, none,
  some, some_inj, ◌==◌, if◌then◌else◌, arith, get_elem?, take, length,
}
use tee_sqlite.HashMap.{Item}
use tee_sqlite.HashMap.Buckets.{AllKeyed}
use tee_sqlite.HashMap.Growth.{view}
use tee_sqlite.HashMap.Dump.{int_bytes, int_of}
use tee_sqlite.Codec.{Tags}
use tee_sqlite.Codec.Bytes.{append_assoc}

-- A number and a tag.
abbrev pub Entry : Type 0
Entry = ℕ × List ℕ

abbrev pub encode : List Entry → List ℕ
encode [] = []
encode ((k, v) ∷ es) = int_bytes k ++ (v ++ encode es)

abbrev pub entries : Tags → List Item → List Entry
entries t [] = []
entries t (x ∷ xs) = (t.store.ints x.key, take 16 (t.bytes x.value)) ∷ entries t xs

abbrev pub all_entries : Tags → List (List Item) → List Entry
all_entries t [] = []
all_entries t (b ∷ bs) = entries t b ++ all_entries t bs

pub encode-append : (xs ys : List Entry) → encode (xs ++ ys) ≡ encode xs ++ encode ys
encode-append [] ys = refl
encode-append ((k, v) ∷ xs) ys =
    rw
      (
        encode-append xs ys,
        append_assoc (int_bytes k) (v ++ encode xs) (encode ys),
        append_assoc v (encode xs) (encode ys),
      )
      refl

pub int_of-int_bytes : (n : ℕ) → n < 2 ^ 32 → int_of (int_bytes n) ≡ n
unfolding int_of int_bytes
int_of-int_bytes n h = omega arith

pub length-int_bytes : (n : ℕ) → length (int_bytes n) ≡ 4
unfolding int_bytes
length-int_bytes n = refl

-- A map of tags as a function: the tag of a number, where the map has one.
abbrev pub tag_of : Tags → ℕ → Option (List ℕ)
tag_of t k = if view t.map k == 0 then none else some (t.bytes (view t.map k))

-- A function after updates by entries, the first one first.
abbrev pub applied : List Entry → (ℕ → Option (List ℕ)) → ℕ → Option (List ℕ)
applied [] f = f
applied ((k, v) ∷ es) f = applied es (λ j. if k == j then some v else f j)

pub applied-ext :
    (es : List Entry) (f g : ℕ → Option (List ℕ)) (j : ℕ)
    → f j ≡ g j
    → applied es f j ≡ applied es g j
applied-ext [] f g j h = h
applied-ext ((k, v) ∷ es) f g j h =
    applied-ext es (λ i. if k == i then some v else f i) (λ i. if k == i then some v else g i) j
      (ap (λ o. if k == j then some v else o) h)

applied-append :
    (xs ys : List Entry) (f : ℕ → Option (List ℕ)) (j : ℕ)
    → applied (xs ++ ys) f j ≡ applied ys (applied xs f) j
applied-append [] ys f j = refl
applied-append ((k, v) ∷ xs) ys f j = applied-append xs ys (λ i. if k == i then some v else f i) j

-- The entries of a list with another key.
applied-other :
    (t : Tags) (b : List Item) (i j : ℕ) (f : ℕ → Option (List ℕ))
    → AllKeyed b i t.store
    → i ≢ j
    → applied (entries t b) f j ≡ f j
applied-other t [] i j f keyed ne = refl
applied-other t (x ∷ xs) i j f keyed ne =
    applied-other t xs i j _ keyed.1 ne ∙ ground (arith, keyed.0)

-- Each list holds items of its own key, the lists starting at the list `i`.
abbrev pub KeyedFrom : ℕ → Tags → List (List Item) → Type 0
KeyedFrom i t bs = (j : ℕ) (b : List Item) → get_elem? bs j ≡ some b → AllKeyed b (i + j) t.store

-- The lists after the first one.
pub shift :
    (i : ℕ) (t : Tags) (b : List Item) (bs : List (List Item))
    → KeyedFrom i t (b ∷ bs)
    → KeyedFrom (i + 1) t bs
shift i t b bs keyed j c h =
    let next : i + suc j ≡ (i + 1) + j = omega arith in
    subst (λ k. AllKeyed c k t.store) next (keyed (suc j) c h)

pub head_keyed :
    (i : ℕ) (t : Tags) (b : List Item) (bs : List (List Item))
    → KeyedFrom i t (b ∷ bs)
    → AllKeyed b i t.store
head_keyed i t b bs keyed =
    let start : i + 0 ≡ i = omega arith in subst (λ k. AllKeyed b k t.store) start (keyed 0 b refl)

applied-before :
    (t : Tags) (bs : List (List Item)) (i k : ℕ) (f : ℕ → Option (List ℕ))
    → KeyedFrom i t bs
    → k < i
    → applied (all_entries t bs) f k ≡ f k
applied-before t [] i k f keyed lt = refl
applied-before t (b ∷ bs) i k f keyed lt =
    applied-append (entries t b) (all_entries t bs) f k
    ∙ (applied-before t bs (i + 1) k (applied (entries t b) f) (shift i t b bs keyed) (omega arith)
        ∙ applied-other t b i k f (head_keyed i t b bs keyed) (λ e. omega (arith, e)))

-- All entries of a map say of a number what those of its list say.
pub applied-at :
    (t : Tags) (bs : List (List Item)) (i j : ℕ) (b : List Item) (f : ℕ → Option (List ℕ))
    → KeyedFrom i t bs
    → get_elem? bs j ≡ some b
    → applied (all_entries t bs) f (i + j) ≡ applied (entries t b) f (i + j)
applied-at t [] i j b f keyed h = absurd (ground arith)
applied-at t (c ∷ bs) i zero b f keyed h =
    applied-append (entries t c) (all_entries t bs) f (i + 0)
    ∙ (applied-before t bs (i + 1) (i + 0) (applied (entries t c) f) (shift i t c bs keyed)
          (omega arith)
        ∙ ap (λ l. applied (entries t l) f (i + 0)) (some_inj h))
applied-at t (c ∷ bs) i (suc j) b f keyed h =
    let next : (i + 1) + j ≡ i + suc j = omega arith in
    applied-append (entries t c) (all_entries t bs) f (i + suc j)
    ∙ (subst
          (λ k.
            applied (all_entries t bs) (applied (entries t c) f) k
            ≡ applied (entries t b) (applied (entries t c) f) k)
          next (applied-at t bs (i + 1) j b (applied (entries t c) f) (shift i t c bs keyed) h)
        ∙ applied-ext (entries t b) (applied (entries t c) f) f (i + suc j)
            (applied-other t c i (i + suc j) f (head_keyed i t c bs keyed) (λ e. omega (arith, e))))
