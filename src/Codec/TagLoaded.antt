-- ===== src/Codec/TagLoaded.antt =====
-- createMap of optee_examples/tee_sqilte/ta/codec.c: the map that it makes of a file of tags.
use tee_sqlite.Prelude.{
  ℕ, zero, suc, ◌+◌, ◌*◌, ◌^◌, ◌≤◌, ◌<◌, ◌≡◌, refl, sym, ap, ◌∙◌, Bool, false, List, [], ◌∷◌, ◌++◌,
  Option, some, ◌==◌, if◌then◌else◌, leb, arith, length, length-append,
}
use tee_sqlite.HashMap.Growth.{IsTable}
use tee_sqlite.HashMap.Dump.{int_bytes, int_of}
use tee_sqlite.TaVfs.{Utee}
use tee_sqlite.TaVfs.Names.{Paths}
use tee_sqlite.Codec.{Tags, set_int, slice}
use tee_sqlite.Codec.Bytes.{append_assoc, slice-append}
use tee_sqlite.Codec.Pages.{record_tag}
use tee_sqlite.Codec.Sealed.{memory_there}
use tee_sqlite.Codec.TagFile.{Allocs, load_loop}
use tee_sqlite.Codec.TagLaws.{IsTagFile}
use tee_sqlite.Codec.TagEntries.{
  Entry, encode, tag_of, applied, applied-ext, int_of-int_bytes, length-int_bytes,
}
use tee_sqlite.Codec.TagTaken.{AreFresh, AllFit, Ready, set_int-IsTable, record_tag-Taken}

module _ {S : Type 0} {u : Utee S} {n : Paths S} {file : S → List ℕ} {pos : ℕ → S → ℕ}
    {On : ℕ → S → Type 0} (laws : IsTagFile u n file pos On) where
  -- A read at the start of a part of the file, of as many bytes.
  read_part :
      (fd k : ℕ) (s : S) (front mid back : List ℕ)
      → On fd s
      → file s ≡ front ++ (mid ++ back)
      → pos fd s ≡ length front
      → length mid ≡ k
      → ((u.read fd k s).0 ≡ k) × ((u.read fd k s).1 ≡ mid)
  read_part fd k s front mid back on bytes at long =
      let whole : length (file s) ≡ length front + (length mid + length back) =
        omega (arith, ap length bytes, length-append front (mid ++ back), length-append mid back) in
      let r = laws.read_full fd k s on (omega (arith, whole, at, long)) in
      (
        r.0,
        r.1
            ∙ (ap (λ p. slice p k (file s)) at
                ∙ (ap (slice (length front) k) bytes ∙ slice-append front mid back refl long)),
      )

-- What the loop of createMap leaves: a map that says of each number what it said before, after the
-- updates by the entries.
pub record Loaded {S : Type 0} (es : List Entry) (t : Tags) (r : Option (Tags × S)) : Type 0 where
  pub tags : Tags
  pub state : S
  pub run : r ≡ some (tags, state)
  pub is_table : IsTable tags.map tags.store
  pub says : (j : ℕ) → tag_of tags (suc j) ≡ applied es (tag_of t) (suc j)

module _ {S : Type 0} {u : Utee S} {n : Paths S} {file : S → List ℕ} {pos : ℕ → S → ℕ}
    {On : ℕ → S → Type 0} (laws : IsTagFile u n file pos On) (over : ℕ → ℕ → Bool) (a : Allocs)
    (fresh : AreFresh a) (size : ℕ) (small : size < 2 ^ 31)
    (room : (c : ℕ) → c ≤ size → over c size ≡ false) (fd : ℕ) where
  abbrev pub set : ℕ → Tags → Option Tags
  set i = record_tag (memory_there over) (a.key_at i) (a.tag_at i)

  pub load_loop-Loaded :
      (left i : ℕ) (es : List Entry) (t : Tags) (s : S) (front : List ℕ)
      → Ready a size i t
      → AllFit size es
      → left + i ≤ size
      → left + i ≤ 20000
      → length es < left
      → On fd s
      → file s ≡ front ++ encode es
      → length front ≡ 20 * i
      → pos fd s ≡ 20 * i
      → Loaded es t (load_loop u a set fd left i t s)
  unfolding load_loop
  load_loop-Loaded zero i es t s front ready fit few rounds fits on bytes long at =
      absurd (omega arith)
  load_loop-Loaded (suc left) i [] t s front ready fit few rounds fits on bytes long at =
      let there : (a.key_at i == 0) ≡ false = ground (arith, fresh.key_there i) in
      let whole = length-append front [] in
      let nothing : (u.read fd 4 s).0 ≡ 0 =
        laws.read_end fd 4 s on (omega (arith, ap length bytes, whole, long, at)) in
      record {
        tags = set_int (a.key_at i) (int_of (u.read fd 4 s).1) t;
        state = (u.read fd 4 s).2;
        run = rw (there, nothing) refl;
        is_table = set_int-IsTable a size i (int_of (u.read fd 4 s).1) t ready;
        says = λ j. refl;
      }
  load_loop-Loaded (suc left) i ((k, v) ∷ es) t s front ready fit few rounds fits on bytes long at =
      let there : (a.key_at i == 0) ≡ false = ground (arith, fresh.key_there i) in
      let tag_there : (a.tag_at i == 0) ≡ false = ground (arith, fresh.tag_there i) in
      let early : leb 20000 i ≡ false = ground arith in
      let front1 = front ++ int_bytes k in
      let long1 : length front1 ≡ 20 * i + 4 =
        omega (arith, long, length-append front (int_bytes k), length-int_bytes k) in
      let front2 = front1 ++ v in
      let long2 : length front2 ≡ 20 * suc i =
        omega (arith, long1, length-append front1 v, fit.1) in
      let key =
        read_part laws fd 4 s front (int_bytes k) (v ++ encode es) on bytes (at ∙ sym long)
          (length-int_bytes k) in
      let s1 = (u.read fd 4 s).2 in
      let on1 = laws.read_on fd 4 s on in
      let s2 = (u.lseek fd ((i + 1) * 4 + i * 16) s1).1 in
      let on2 = laws.lseek_on fd ((i + 1) * 4 + i * 16) s1 on1 in
      let bytes1 : file s2 ≡ front1 ++ (v ++ encode es) =
        laws.lseek_file fd ((i + 1) * 4 + i * 16) s1 on1
        ∙ (laws.read_file fd 4 s on
            ∙ (bytes ∙ sym (append_assoc front (int_bytes k) (v ++ encode es)))) in
      let at1 : pos fd s2 ≡ length front1 =
        omega (arith, laws.lseek_pos fd ((i + 1) * 4 + i * 16) s1 on1, long1) in
      let tag = read_part laws fd 16 s2 front1 v (encode es) on2 bytes1 at1 fit.1 in
      let s3 = (u.read fd 16 s2).2 in
      let on3 = laws.read_on fd 16 s2 on2 in
      let s4 = (u.lseek fd ((i + 1) * 4 + (i + 1) * 16) s3).1 in
      let taken =
        record_tag-Taken over a fresh size small room i k v t ready fit.0 (omega (arith)) in
      let ih =
        load_loop-Loaded left (suc i) es taken.tags s4 front2 taken.ready fit.2 (omega (arith))
          (omega arith) (omega (arith, fits)) (laws.lseek_on fd ((i + 1) * 4 + (i + 1) * 16) s3 on3)
          (laws.lseek_file fd ((i + 1) * 4 + (i + 1) * 16) s3 on3
            ∙ (laws.read_file fd 16 s2 on2 ∙ (bytes1 ∙ sym (append_assoc front1 v (encode es)))))
          long2 (omega (arith, laws.lseek_pos fd ((i + 1) * 4 + (i + 1) * 16) s3 on3)) in
      record {
        tags = ih.tags;
        state = ih.state;
        run =
            rw
              (
                there,
                key.0,
                early,
                tag_there,
                key.1,
                int_of-int_bytes k (omega (arith, fit.0)),
                tag.1,
                taken.run,
              )
              ih.run;
        is_table = ih.is_table;
        says = λ j.
            ih.says j
            ∙ applied-ext es (tag_of taken.tags) (λ l. if k == l then some v else tag_of t l)
                (suc j) (taken.says j);
      }
