-- ===== src/Codec/TagSaved.antt =====
-- closeMap of optee_examples/tee_sqilte/ta/codec.c, with hm_dump of hashmap.c: what the file of tags
-- holds afterwards.
use tee_sqlite.Prelude.{
  ℕ, zero, suc, ◌+◌, ◌^◌, ◌<◌, ◌≡◌, refl, sym, ap, subst, ◌∙◌, List, [], ◌∷◌, ◌++◌, Option, none,
  some, some_inj, ◌==◌, arith, get_elem?, get_elem?-lt, take, drop, drop-ge, length, length-append,
  Bool-cases, inl, inr,
}
use tee_sqlite.HashMap.{Store, Item}
use tee_sqlite.HashMap.Clear.{hm_delete, total, hm_clear-IsCleared}
use tee_sqlite.HashMap.Dump.{int_bytes, each_list, dump_items, hm_dump}
use tee_sqlite.TaVfs.{Utee}
use tee_sqlite.TaVfs.Names.{Paths}
use tee_sqlite.Codec.{Tags}
use tee_sqlite.Codec.Bytes.{append_assoc, append_nil}
use tee_sqlite.Codec.TagFile.{mac_log, write_flags, mode, free_int, close_map}
use tee_sqlite.Codec.TagLaws.{IsTagFile}
use tee_sqlite.Codec.TagEntries.{encode, entries, all_entries, encode-append}

-- `n` lists from the list `i` on, as a loop over what is left of the array.
abbrev fold_lists : {S : Type 0} → (List Item → S → S) → List (List Item) → S → S
fold_lists body [] s = s
fold_lists body (b ∷ bs) s = fold_lists body bs (body b s)

drop-suc :
    (items : List (List Item)) (i : ℕ) (b : List Item)
    → get_elem? items i ≡ some b
    → drop i items ≡ b ∷ drop (i + 1) items
drop-suc [] i b h = absurd (ground arith)
drop-suc (x ∷ xs) zero b h = ap (λ (c : List Item). c ∷ xs) (some_inj h)
drop-suc (x ∷ xs) (suc i) b h =
    let next : suc (i + 1) ≡ suc i + 1 = omega arith in
    drop-suc xs i b h ∙ ap (λ k. b ∷ drop k (x ∷ xs)) next

each_list-fold :
    {S : Type 0} (body : List Item → S → S) (n i : ℕ) (items : List (List Item)) (s : S)
    → i + n ≡ length items
    → each_list body n i items s ≡ some (fold_lists body (drop i items) s)
unfolding each_list
each_list-fold body zero i items s h = rw (drop-ge i items (omega arith)) refl
each_list-fold body (suc n) i items s h =
    let (b, there) = get_elem?-lt items i (omega arith) in
    rw (there, drop-suc items i b there)
      (each_list-fold body n (i + 1) items (body b s) (omega arith))

module _ {S : Type 0} {u : Utee S} {n : Paths S} {file : S → List ℕ} {pos : ℕ → S → ℕ}
    {On : ℕ → S → Type 0} (laws : IsTagFile u n file pos On) (t : Tags) (fd : ℕ) where
  -- What a loop leaves that writes at the end of the file.
  record Appended (bs : List ℕ) (s s' : S) : Type 0 where
    bytes : file s' ≡ file s ++ bs
    on : On fd s'
    at_end : pos fd s' ≡ length (file s')

  write-Appended :
      (bs : List ℕ) (s : S)
      → On fd s
      → pos fd s ≡ length (file s)
      → Appended bs s (u.write fd bs s).1
  write-Appended bs s on end =
      let bytes = laws.write_end fd bs s on end in
      record {
        bytes = bytes;
        on = laws.write_on fd bs s on;
        at_end =
            omega
              (arith, laws.write_pos fd bs s on, end, ap length bytes, length-append (file s) bs);
      }

  then-Appended :
      (xs ys : List ℕ) (s s1 s2 : S)
      → Appended xs s s1
      → Appended ys s1 s2
      → Appended (xs ++ ys) s s2
  then-Appended xs ys s s1 s2 a b = record {
    bytes = b.bytes ∙ (ap (λ l. l ++ ys) a.bytes ∙ append_assoc (file s) xs ys);
    on = b.on;
    at_end = b.at_end;
  }

  nothing-Appended : (s : S) → On fd s → pos fd s ≡ length (file s) → Appended [] s s
  nothing-Appended s on end = record { bytes = sym (append_nil (file s)); on = on; at_end = end }

  dump_items-Appended :
      (b : List Item) (s : S)
      → On fd s
      → pos fd s ≡ length (file s)
      → Appended (encode (entries t b)) s (dump_items u fd none t.store t.bytes b s)
  unfolding dump_items
  dump_items-Appended [] s on end = nothing-Appended s on end
  dump_items-Appended (x ∷ xs) s on end =
      let number = int_bytes (t.store.ints x.key) in
      let tag = take 16 (t.bytes x.value) in
      let s1 = (u.write fd number s).1 in
      let s2 = (u.write fd tag s1).1 in
      let a = write-Appended number s on end in
      let b = write-Appended tag s1 a.on a.at_end in
      let c = dump_items-Appended xs s2 b.on b.at_end in
      let s3 = dump_items u fd none t.store t.bytes xs s2 in
      then-Appended number (tag ++ encode (entries t xs)) s s1 s3 a
        (then-Appended tag (encode (entries t xs)) s1 s2 s3 b c)

  fold_lists-Appended :
      (bs : List (List Item)) (s : S)
      → On fd s
      → pos fd s ≡ length (file s)
      → Appended
          (encode (all_entries t bs))
          s
          (fold_lists (dump_items u fd none t.store t.bytes) bs s)
  fold_lists-Appended [] s on end = nothing-Appended s on end
  fold_lists-Appended (b ∷ bs) s on end =
      let s1 = dump_items u fd none t.store t.bytes b s in
      let a = dump_items-Appended b s on end in
      let c = fold_lists-Appended bs s1 a.on a.at_end in
      subst (λ l. Appended l s (fold_lists (dump_items u fd none t.store t.bytes) bs s1))
        (sym (encode-append (entries t b) (all_entries t bs)))
        (then-Appended (encode (entries t b)) (encode (all_entries t bs)) s s1 _ a c)

  no-entries : (bs : List (List Item)) → total bs ≡ 0 → all_entries t bs ≡ []
  no-entries [] h = refl
  no-entries ([] ∷ bs) h = no-entries bs (omega arith)
  no-entries ((x ∷ xs) ∷ bs) h = absurd (omega arith)

  -- What hm_dump leaves of an empty file.
  record Dumped (s : S) (r : Option S) : Type 0 where
    state : S
    run : r ≡ some state
    written : Appended (encode (all_entries t t.map.items)) s state

  hm_dump-Dumped :
      (s : S)
      → length t.map.items ≡ t.map.size
      → t.map.count ≡ total t.map.items
      → On fd s
      → pos fd s ≡ length (file s)
      → Dumped s (hm_dump u t.map fd none t.store t.bytes s)
  unfolding hm_dump
  hm_dump-Dumped s wide counted on end = elim (Bool-cases (t.map.count == 0)) [
    | inl empty ↦ record {
      state = s;
      run = rw (empty) refl;
      written =
          subst (λ es. Appended (encode es) s s)
            (sym (no-entries t.map.items (ground (arith, counted)))) (nothing-Appended s on end);
    }
    | inr some_there ↦ record {
      state = fold_lists (dump_items u fd none t.store t.bytes) t.map.items s;
      run = rw (some_there) (
          each_list-fold (dump_items u fd none t.store t.bytes) t.map.size 0 t.map.items s
            (omega (arith, wide)));
      written = fold_lists-Appended t.map.items s on end;
    }
  ]

-- What closeMap leaves: the file holds the entries of the map, list by list, and nothing else.
pub record Saved {S : Type 0} (file : S → List ℕ) (t : Tags) (r : Option (Store × S)) : Type 0 where
  pub store : Store
  pub state : S
  pub run : r ≡ some (store, state)
  pub bytes : file state ≡ encode (all_entries t t.map.items)

-- closeMap of a map whose array is as long as its size says, and which counts its items, meets no
-- access past the array, and leaves a file that holds exactly the number and the 16 bytes of each
-- item, in the order of the lists, whatever it held before. The calls on the file are taken to
-- succeed and do what POSIX says.
pub close_map-Saved :
    {S : Type 0} (u : Utee S) (n : Paths S) (file : S → List ℕ) (pos : ℕ → S → ℕ)
    (On : ℕ → S → Type 0) (items_at map_at : ℕ) (t : Tags) (s : S)
    → IsTagFile u n file pos On
    → length t.map.items ≡ t.map.size
    → t.map.count ≡ total t.map.items
    → t.map.count < 2 ^ 32
    → Saved file t (close_map u n items_at map_at (some t) s)
unfolding close_map hm_delete
close_map-Saved u n file pos On items_at map_at t s laws wide counted bound =
    let fd = (n.open_path mac_log write_flags mode s).0 in
    let s1 = (n.open_path mac_log write_flags mode s).1 in
    let d =
      hm_dump-Dumped laws t fd s1 wide counted (laws.truncated_on s)
        (omega (arith, laws.truncated_pos s, ap length (laws.truncated s))) in
    let c = hm_clear-IsCleared free_int t.map t.store wide (omega (arith, counted, bound)) in
    record {
      store = record c.store { freed = map_at ∷ (items_at ∷ c.store.freed) };
      state = u.close fd d.state;
      run = rw (d.run, c.run) refl;
      bytes =
          laws.close_file fd d.state d.written.on
          ∙ (d.written.bytes
              ∙ ap (λ l. l ++ encode (all_entries t t.map.items)) (laws.truncated s));
    }
