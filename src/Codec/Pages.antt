-- ===== src/Codec/Pages.antt =====
-- CodecAES, CodecEncrypt and CodecDecrypt of optee_examples/tee_sqilte/ta/codec.c. `bytes` are those of a
-- page, changed in place.
use tee_sqlite.Prelude.{
  ℕ, ◌+◌, ◌-◌, ◌*◌, ◌^◌, ◌==◌, ◌&&◌, not, Bool, true, false, List, [], ◌∷◌, Option, none, some,
  length, replicate, if◌then◌else◌, get_elem?, leb, ◌>>=◌,
}
use Prim.Native.Nat.{bit_and}
use tee_sqlite.HashMap.Maps.{hm_get, hm_set}
use tee_sqlite.Codec.{Codec, Ae, Tags, set_int, set_bytes, slice, put, tag_size}

-- Where the locals stand to which the map keeps pointers: `page` and `pageHeader`, and `p_mac`,
-- and what is in `dbHeader` while nothing is written to it.
pub record Frame : Type 0 where
  pub page_at : ℕ
  pub header_at : ℕ
  pub mac_at : ℕ
  pub stale : List ℕ

-- What TEE_Malloc and TEE_Realloc answer in hm_set, and the test of the load factor.
pub record MapAnswers : Type 0 where
  pub over : ℕ → ℕ → Bool
  pub item_ok : Bool
  pub key_ok : Bool
  pub realloc_ok : Bool

-- SQLITE_FILE_HEADER with its NUL.
abbrev pub file_header : List ℕ
file_header =
    83 ∷ 81 ∷ 76 ∷ 105 ∷ 116 ∷ 101 ∷ 32 ∷ 102 ∷ 111 ∷ 114 ∷ 109 ∷ 97 ∷ 116 ∷ 32 ∷ 51 ∷ 0 ∷ []

-- The key that `useWriteKey` chooses; the argument `encryptionKey` is not used.
unfoldable pub chosen_key : Codec → Bool → List ℕ
chosen_key c use_write_key = if use_write_key then c.write_key else c.read_key

-- hm_set with the tag's buffer as the value; `none` is an access past the array.
unfoldable pub record_tag : MapAnswers → ℕ → ℕ → Tags → Option Tags
record_tag q key_at mac_at t = do
  (rc, map, store) ← hm_set q.over q.item_ok q.key_ok q.realloc_ok t.map key_at mac_at t.store
  some (record t { map = map; store = store })

-- The locals at the start.
abbrev pub enter : Frame → ℕ → Tags → Tags
enter f page t = set_bytes f.mac_at (replicate tag_size 0) (set_int f.page_at page t)

-- The bytes 8 to 15 take those of 16 to 23, which take the header in the clear.
unfoldable pub expose_header : List ℕ → List ℕ → List ℕ
expose_header db_header bytes = put 16 db_header (put 8 (slice 16 8 bytes) bytes)

-- The size in a header is a power of two from 512 to SQLITE_MAX_PAGE_SIZE, which is SQLite's, and the
-- bytes 5 to 7 are those of each SQLite database.
abbrev byte_at : List ℕ → ℕ → ℕ
byte_at h i = elim (get_elem? h i) [ none ↦ 0 | some b ↦ b ]

unfoldable pub is_db_header : ℕ → List ℕ → Bool
is_db_header max_page_size h =
    let size = byte_at h 0 * 2 ^ 8 + byte_at h 1 * 2 ^ 16 in
    leb 512 size
    && leb size max_page_size
    && bit_and (size - 1) size == 0
    && byte_at h 5 == 64
    && byte_at h 6 == 32
    && byte_at h 7 == 32

-- memcmp of as many bytes.
unfoldable pub same_bytes : List ℕ → List ℕ → Bool
same_bytes [] [] = true
same_bytes [] (b ∷ bs) = false
same_bytes (x ∷ xs) [] = false
same_bytes (x ∷ xs) (b ∷ bs) = if x == b then same_bytes xs bs else false

-- A tag from hm_get goes to `p_in_mac`, unless it is NULL.
unfoldable pub fetch_tag : ℕ → ℕ → Tags → Tags
fetch_tag mac_at tmp t = if tmp == 0 then t else set_bytes mac_at (t.bytes tmp) t

module _ (ae : Ae) where
  -- CodecAES with `encrypt` 1, and 0. A failure is only logged.
  unfoldable pub aes_encrypt : Codec → Bool → List ℕ → List ℕ × List ℕ
  unfolding chosen_key
  aes_encrypt c use_write_key src =
      let (rc, dst, mac) = ae.encrypt (chosen_key c use_write_key) src in (dst, mac)

  unfoldable pub aes_decrypt : Codec → Bool → List ℕ → List ℕ → List ℕ
  unfolding chosen_key
  aes_decrypt c use_write_key src mac = (ae.decrypt (chosen_key c use_write_key) src mac).1

  -- The bytes from `ofst` on are encrypted, and their tag goes to `p_mac` and to the map.
  unfoldable pub encrypt_from :
      MapAnswers → Codec → Bool → ℕ → ℕ → ℕ → ℕ → List ℕ → Tags → Option (List ℕ × Tags)
  unfolding aes_encrypt record_tag
  encrypt_from q c use_write_key key_at mac_at ofst n bytes t =
      let (dst, mac) = aes_encrypt c use_write_key (slice ofst n bytes) in
      (do t' ← record_tag q key_at mac_at (set_bytes mac_at mac t); some (put ofst dst bytes, t'))

  -- Page 1 is encrypted in two parts, the first of which is recorded under the number 0. hm_set may
  -- change `page`, which is read again at the end. The state is that at the return: the locals are gone
  -- with it, so what the map's pointers to them find later is not known.
  unfoldable pub codec_encrypt :
      MapAnswers → Codec → Frame → ℕ → List ℕ → Bool → Tags → Option (List ℕ × Tags)
  unfolding encrypt_from expose_header
  codec_encrypt q c f page bytes use_write_key t =
      let len = length bytes in
      if page == 1
      then (do
        (bytes1, t1) ←
            encrypt_from q c use_write_key f.header_at f.mac_at 0 16 bytes
              (set_int f.header_at (page - 1) (enter f page t))
        (bytes2, t2) ← encrypt_from q c use_write_key f.page_at f.mac_at 16 (len - 16) bytes1 t1
        some (
          if t2.store.ints f.page_at == 1 then expose_header (slice 16 8 bytes) bytes2 else bytes2,
          t2,
        ))
      else (do
        (bytes2, t2) ←
            encrypt_from q c use_write_key f.page_at f.mac_at 0 len bytes (enter f page t)
        some (if t2.store.ints f.page_at == 1 then expose_header f.stale bytes2 else bytes2, t2))

  -- The rest of CodecDecrypt once `offset` is known and `bytes` are restored.
  unfoldable pub decrypt_from : Codec → Frame → ℕ → List ℕ → List ℕ → Tags → Option (List ℕ × Tags)
  unfolding aes_decrypt fetch_tag same_bytes
  decrypt_from c f offset db_header bytes t = do
    (tmp, s) ← hm_get t.map f.page_at t.store
    let t1 = fetch_tag f.mac_at tmp (record t { store = s })
    let plain = aes_decrypt c false (slice offset (length bytes - offset) bytes) (t1.bytes f.mac_at)
    let bytes1 = put offset plain bytes
    some (
      if s.ints f.page_at == 1 && not (offset == 0) && same_bytes db_header (slice 16 8 bytes1)
          then put 0 file_header bytes1
          else bytes1,
      t1,
    )

  unfoldable pub codec_decrypt : ℕ → Codec → Frame → ℕ → List ℕ → Tags → Option (List ℕ × Tags)
  unfolding decrypt_from is_db_header
  codec_decrypt max_page_size c f page bytes t =
      let db_header = slice 16 8 bytes in
      if page == 1 && is_db_header max_page_size db_header
      then decrypt_from c f 16 db_header (put 16 (slice 8 8 bytes) bytes) (enter f page t)
      else decrypt_from c f 0 db_header bytes (enter f page t)
