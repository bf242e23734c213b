-- ===== src/Codec/RoundTrip.antt =====
-- CodecDecrypt after CodecEncrypt in optee_examples/tee_sqilte/ta/codec.c, for a page other than 1.
use tee_sqlite.Prelude.{
  ℕ, ◌+◌, ◌-◌, ◌≤◌, ◌⊎◌, inl, inr, get_elem?, ◌∷◌, ◌^◌, ◌<◌, ◌≡◌, ◌≢◌, refl, sym, ap, ◌∙◌, Bool,
  true, false, not, ◌&&◌, List, [], some, some_inj, length, ◌==◌, if◌then◌else◌, arith,
}
use tee_sqlite.HashMap.Growth.{IsTable, view}
use tee_sqlite.HashMap.{Item}
use tee_sqlite.Codec.{Codec, Ae, Tags, slice}
use tee_sqlite.Codec.Pages.{Frame, enter, codec_encrypt, codec_decrypt, decrypt_from}
use tee_sqlite.Codec.Bytes.{slice-append_rest, put-append_rest}
use tee_sqlite.Codec.Sealed.{
  AeLaws, memory_there, Sealed, encrypted, encrypt_from-Sealed, decrypted, decrypt_from-decrypted,
}

-- The locals of a call stand where no item's pointer leads, other than to the same number, and the
-- page is one that the map has a list for.
pub record IsReady (f : Frame) (page : ℕ) (t : Tags) : Type 0 where
  pub table : IsTable t.map (enter f page t).store
  pub page_at : f.page_at ≢ 0
  pub positive : 0 < page
  pub within : page < t.map.size

-- The map has no item for a page, and does not grow: then hm_set reads and frees nothing to which an item
-- points, so what became of the locals of earlier calls, to which items may point, does not matter.
pub record IsNew (over : ℕ → ℕ → Bool) (page : ℕ) (t : Tags) : Type 0 where
  pub no_item : get_elem? t.map.items page ≡ some []
  pub steady : (n : ℕ) → over n t.map.size ≡ false

-- `n` bytes at `a` and `m` bytes at `b`.
abbrev pub Apart : ℕ → ℕ → ℕ → ℕ → Type 0
Apart a n b m = (a + n ≤ b) ⊎ (b + m ≤ a)

pub Apart-ne : {a b : ℕ} → Apart a 16 b 16 → a ≢ b
Apart-ne {a} {b} (inl before) e = omega arith
Apart-ne {a} {b} (inr behind) e = omega arith

-- The numbers and the tags of items stand in memory of their own, apart from the locals of a call.
abbrev pub OwnMemory : Frame → List Item → Type 0
OwnMemory f [] = Unit {0}
OwnMemory f (x ∷ xs) =
    Apart f.page_at 4 x.key 4
    × Apart f.mac_at 16 x.key 4
    × Apart f.page_at 4 x.value 16
    × OwnMemory f xs

-- The map has the tag `mac` of a page at the address `a`, as after createMap: the items of the page and
-- the tag stand in memory of their own.
pub record Restored (f : Frame) (page a : ℕ) (mac : List ℕ) (t : Tags) : Type 0 where
  pub ready : IsReady f page t
  pub items : List Item
  pub listed : get_elem? t.map.items page ≡ some items
  pub own : OwnMemory f items
  pub there : a ≢ 0
  pub apart : Apart f.mac_at 16 a 16
  pub known : view t.map page ≡ a
  pub tag : t.bytes a ≡ mac

pub page_entered : (f : Frame) (page : ℕ) (t : Tags) → (enter f page t).store.ints f.page_at ≡ page
page_entered f page t = ground arith

-- The file header is written only where there is an offset.
unwritten : (p q : Bool) (xs ys : List ℕ) → (if p && not (0 == 0) && q then xs else ys) ≡ ys
unwritten false q xs ys = refl
unwritten true q xs ys = refl

decrypted_whole :
    (ae : Ae) (c : Codec) (bytes mac src : List ℕ)
    → ae.decrypt c.read_key bytes mac ≡ (true, src)
    → length src ≡ length bytes
    → decrypted ae c 0 bytes mac ≡ src
decrypted_whole ae c bytes mac src opened kept =
    rw
      (
        slice-append_rest [] bytes {n = length bytes - 0} refl (omega arith),
        opened,
        put-append_rest [] bytes src refl kept,
      )
      refl

-- CodecDecrypt without a header in the clear, where the map has the tag of the page.
pub codec_decrypt_plain :
    (ae : Ae) (c : Codec) (f : Frame) (page a : ℕ) (db_header bytes mac src : List ℕ) (t : Tags)
    → IsReady f page t
    → a ≢ 0
    → f.mac_at ≢ a
    → view t.map page ≡ a
    → t.bytes a ≡ mac
    → ae.decrypt c.read_key bytes mac ≡ (true, src)
    → length src ≡ length bytes
    → (t' : Tags) × (decrypt_from ae c f 0 db_header bytes (enter f page t) ≡ some (src, t'))
codec_decrypt_plain ae c f page a db_header bytes mac src t ready there other v b opened kept =
    let at : (enter f page t).store.ints f.page_at ≡ page = page_entered f page t in
    let (t', run) =
      decrypt_from-decrypted ae c f 0 a db_header bytes mac (enter f page t) ready.table
        ready.page_at (omega (arith, at, ready.positive)) (omega (arith, at, ready.within)) there
        (ap (view t.map) at ∙ v) (ground (arith, b)) in
    (
      t',
      run
          ∙ ap (λ bs. some (bs, t'))
              (unwritten _ _ _ _ ∙ decrypted_whole ae c bytes mac src opened kept),
    )

pub codec_encrypt_other :
    (ae : Ae) (over : ℕ → ℕ → Bool) (c : Codec) (use_write_key : Bool) (f : Frame) (page : ℕ)
    (bytes : List ℕ) (t : Tags)
    → IsReady f page t
    → IsNew over page t
    → t.map.size < 2 ^ 31
    → page ≢ 1
    → Sealed 0 f.mac_at page
        (encrypted ae c use_write_key bytes).1
        (encrypted ae c use_write_key bytes).2
        bytes
        (enter f page t)
        (codec_encrypt ae (memory_there over) c f page bytes use_write_key t)
unfolding codec_encrypt
codec_encrypt_other ae over c use_write_key f page bytes t ready fresh small other =
    let not_first : (page == 1) ≡ false = ground arith in
    let at = page_entered f page t in
    let s =
      encrypt_from-Sealed ae over c use_write_key f.page_at f.mac_at 0 (length bytes) bytes
        (enter f page t) ready.table ready.page_at (omega (arith, at, ready.within)) small in
    let whole = slice-append_rest [] bytes {n = length bytes} refl refl in
    let still : (s.tags.store.ints f.page_at == 1) ≡ false = ground (arith, s.same f.page_at) in
    record {
      tags = s.tags;
      run = rw (not_first, if◌then◌else◌, s.run, still, if◌then◌else◌, whole) refl;
      is_table = s.is_table;
      larger = s.larger;
      bounded = s.bounded;
      same = s.same;
      views = λ j. ground (arith, s.views j);
      tag = s.tag ∙ ap (λ l. (encrypted ae c use_write_key l).2) whole;
      others = s.others;
    }

pub codec_decrypt-codec_encrypt :
    (ae : Ae) (laws : AeLaws ae) (over : ℕ → ℕ → Bool) (max_page_size : ℕ) (c : Codec)
    (use_write_key : Bool) (f f' : Frame) (page : ℕ) (bytes : List ℕ) (t : Tags)
    → (if use_write_key then c.write_key else c.read_key) ≡ c.read_key
    → IsReady f page t
    → IsNew over page t
    → t.map.size < 2 ^ 31
    → page ≢ 1
    → {enc : List ℕ} {t1 : Tags}
    → codec_encrypt ae (memory_there over) c f page bytes use_write_key t ≡ some (enc, t1)
    → {a : ℕ} {t' : Tags} → Restored f' page a (t1.bytes f.mac_at) t'
    → (t2 : Tags) × (codec_decrypt ae max_page_size c f' page enc t' ≡ some (bytes, t2))
unfolding codec_decrypt
codec_decrypt-codec_encrypt ae laws over max_page_size c use_write_key f f' page bytes t key ready
      fresh small other {enc} {t1} run {a} {t'} held =
    let e = codec_encrypt_other ae over c use_write_key f page bytes t ready fresh small other in
    let not_first : (page == 1) ≡ false = ground arith in
    let made = some_inj (sym run ∙ e.run) in
    let ct : enc ≡ (ae.encrypt c.read_key bytes).1 =
      ap (λ (p : List ℕ × Tags). p.0) made
      ∙ (put-append_rest [] bytes _ refl (laws.kept _ bytes)
          ∙ ap (λ k. (ae.encrypt k bytes).1) key) in
    let tags : t1 ≡ e.tags = ap (λ (p : List ℕ × Tags). p.1) made in
    let opened : ae.decrypt c.read_key enc (ae.encrypt c.read_key bytes).2 ≡ (true, bytes) =
      rw (ct) (laws.opened c.read_key bytes) in
    let tag : t'.bytes a ≡ (ae.encrypt c.read_key bytes).2 =
      held.tag
      ∙ ap (λ (t : Tags). t.bytes f.mac_at) tags
      ∙ (e.tag ∙ ap (λ k. (ae.encrypt k bytes).2) key) in
    let (t2, back) =
      codec_decrypt_plain ae c f' page a (slice 16 8 enc) enc (ae.encrypt c.read_key bytes).2 bytes
        t' held.ready held.there (Apart-ne held.apart) held.known tag opened
        (sym (ap length ct ∙ laws.kept c.read_key bytes)) in
    (t2, rw (not_first) back)
