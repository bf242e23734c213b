-- ===== src/Codec/Sealed.antt =====
-- One call of CodecAES with the hm_set after it, and one with the hm_get before it, in
-- optee_examples/tee_sqilte/ta/codec.c.
use tee_sqlite.Prelude.{
  ℕ, suc, ◌-◌, ◌^◌, ◌≤◌, ◌<◌, ◌≡◌, ◌≢◌, refl, Bool, true, false, not, ◌&&◌, List, Option, some,
  length, ◌==◌, if◌then◌else◌, arith, Bool-cases, inl, inr,
}
use tee_sqlite.HashMap.Table.{next_size}
use tee_sqlite.HashMap.Growth.{IsTable, view}
use tee_sqlite.HashMap.Update.{hm_set-IsStored}
use tee_sqlite.HashMap.ZeroKey.{hm_set-IsZeroStored}
use tee_sqlite.HashMap.Lookup.{hm_get-view}
use tee_sqlite.Codec.{Codec, Ae, Tags, set_bytes, slice, put}
use tee_sqlite.Codec.Pages.{
  Frame, MapAnswers, chosen_key, aes_encrypt, aes_decrypt, record_tag, encrypt_from, fetch_tag,
  decrypt_from, same_bytes, file_header,
}

-- What AES-GCM promises with a fixed initial vector: what was encrypted has as many bytes, and with
-- its tag it decrypts to what it was.
pub record AeLaws (ae : Ae) : Type 0 where
  pub kept : (k src : List ℕ) → length (ae.encrypt k src).1 ≡ length src
  pub opened :
      (k src : List ℕ) → ae.decrypt k (ae.encrypt k src).1 (ae.encrypt k src).2 ≡ (true, src)

-- hm_set with memory there.
abbrev pub memory_there : (ℕ → ℕ → Bool) → MapAnswers
memory_there over = record { over = over; item_ok = true; key_ok = true; realloc_ok = true }

-- What an encryption leaves: the bytes, the tag at `mac_at`, and `mac_at` as the value of the key.
pub record Sealed (ofst mac_at k : ℕ) (ct mac bytes : List ℕ) (t : Tags)
    (r : Option (List ℕ × Tags)) : Type 0 where
  pub tags : Tags
  pub run : r ≡ some (put ofst ct bytes, tags)
  pub is_table : IsTable tags.map tags.store
  pub larger : t.map.size ≤ tags.map.size
  pub bounded : tags.map.size ≤ next_size t.map.size
  pub same : (a : ℕ) → tags.store.ints a ≡ t.store.ints a
  pub views : (j : ℕ) → view tags.map (suc j) ≡ (if k == suc j then mac_at else view t.map (suc j))
  pub tag : tags.bytes mac_at ≡ mac
  pub others : (a : ℕ) → a ≢ mac_at → tags.bytes a ≡ t.bytes a

-- What CodecAES makes of bytes.
abbrev pub encrypted : Ae → Codec → Bool → List ℕ → Bool × List ℕ × List ℕ
encrypted ae c use_write_key = ae.encrypt (if use_write_key then c.write_key else c.read_key)

module _ (ae : Ae) (over : ℕ → ℕ → Bool) (c : Codec) (use_write_key : Bool) where
  pub encrypt_from-Sealed :
      (key_at mac_at ofst n : ℕ) (bytes : List ℕ) (t : Tags)
      → IsTable t.map t.store
      → key_at ≢ 0
      → t.store.ints key_at < t.map.size
      → t.map.size < 2 ^ 31
      → Sealed ofst mac_at
          (t.store.ints key_at)
          (encrypted ae c use_write_key (slice ofst n bytes)).1
          (encrypted ae c use_write_key (slice ofst n bytes)).2
          bytes
          t
          (encrypt_from ae (memory_there over) c use_write_key key_at mac_at ofst n bytes t)
  unfolding encrypt_from aes_encrypt record_tag chosen_key
  encrypt_from-Sealed key_at mac_at ofst n bytes t table ne lt small =
      elim (Bool-cases (t.store.ints key_at == 0)) [
        | inl at_zero ↦
            let r =
              hm_set-IsZeroStored over t.map key_at mac_at t.store table ne (ground arith)
                (omega (arith, lt)) small in
            record {
              tags = record {
                map = r.table;
                store = r.store;
                bytes =
                    (set_bytes mac_at (encrypted ae c use_write_key (slice ofst n bytes)).2
                      t).bytes;
              };
              run = rw (r.run) refl;
              is_table = r.is_table;
              larger = r.larger;
              bounded = r.bounded;
              same = r.same;
              views = λ j. ground (arith, r.views j);
              tag = ground arith;
              others = λ a other. ground arith;
            }
        | inr positive ↦
            let r =
              hm_set-IsStored over t.map key_at mac_at t.store table ne (ground arith) lt small in
            record {
              tags = record {
                map = r.table;
                store = r.store;
                bytes =
                    (set_bytes mac_at (encrypted ae c use_write_key (slice ofst n bytes)).2
                      t).bytes;
              };
              run = rw (r.run) refl;
              is_table = r.is_table;
              larger = r.larger;
              bounded = r.bounded;
              same = r.same;
              views = λ j. r.views (suc j);
              tag = ground arith;
              others = λ a other. ground arith;
            }
      ]

module _ (ae : Ae) (c : Codec) where
  -- The bytes that a decryption gives with the tag `mac`.
  abbrev pub decrypted : ℕ → List ℕ → List ℕ → List ℕ
  decrypted ofst bytes mac =
      put ofst (ae.decrypt c.read_key (slice ofst (length bytes - ofst) bytes) mac).1 bytes

  pub decrypt_from-decrypted :
      (f : Frame) (ofst a : ℕ) (db_header bytes mac : List ℕ) (t : Tags)
      → IsTable t.map t.store
      → f.page_at ≢ 0
      → 0 < t.store.ints f.page_at
      → t.store.ints f.page_at < t.map.size
      → a ≢ 0
      → view t.map (t.store.ints f.page_at) ≡ a
      → t.bytes a ≡ mac
      → (t' : Tags) × (decrypt_from ae c f ofst db_header bytes t
          ≡ some (
            (if t.store.ints f.page_at == 1
                  && not (ofst == 0)
                  && same_bytes db_header (slice 16 8 (decrypted ofst bytes mac))
                then put 0 file_header (decrypted ofst bytes mac)
                else decrypted ofst bytes mac),
            t',
          ))
  unfolding decrypt_from aes_decrypt fetch_tag chosen_key
  decrypt_from-decrypted f ofst a db_header bytes mac t table ne pos lt there v b =
      let (s, run, same) = hm_get-view t.map f.page_at t.store table ne pos lt in
      let present : (a == 0) ≡ false = ground arith in
      let own : (f.mac_at == f.mac_at) ≡ true = ground arith in
      (
        set_bytes f.mac_at (t.bytes a) (record t { store = s }),
        rw (run, v, present, if◌then◌else◌, own, if◌then◌else◌, b, same f.page_at) refl,
      )
