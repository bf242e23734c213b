-- ===== src/Codec/Keys.antt =====
-- The functions that SQLite and the application call for keys in
-- optee_examples/tee_sqilte/ta/codecext.c: sqlite3Codec, sqlite3CodecAttach, sqlite3CodecGetKey,
-- dbFindIndex and sqlite3_key_v2. B-trees and pagers are SQLite's; of a pager, its codec is kept.
use tee_sqlite.Prelude.{
  ℕ, zero, suc, ◌+◌, ◌^◌, ◌==◌, ◌&&◌, ◌||◌, not, Bool, true, false, List, [], ◌∷◌, Option, none,
  some, get_elem?, ltb, if◌then◌else◌, ◌>>=◌,
}
use tee_sqlite.Codec.{
  Codec, Ae, Tags, codec_init, codec_copy, codec_copy_key, codec_generate_read_key,
}
use tee_sqlite.Codec.Pages.{Frame, MapAnswers, codec_encrypt, codec_decrypt, same_bytes}

-- `nKey > 0` for an int of 32 bits.
abbrev pub is_positive : ℕ → Bool
is_positive n = ltb 0 n && ltb n (2 ^ 31)

-- Modes of sqlite3Codec: those that undo, reload and load a page, and those that encrypt one for the
-- database and for the journal.
abbrev pub mode_undo : ℕ
mode_undo = 0

abbrev pub mode_reload : ℕ
mode_reload = 2

abbrev pub mode_load : ℕ
mode_load = 3

abbrev pub mode_store : ℕ
mode_store = 6

abbrev pub mode_journal : ℕ
mode_journal = 7

module _ (ae : Ae) (max_page_size : ℕ) where
  -- `bytes` are as many as the page size. An encryption works on a copy of them.
  unfoldable pub sqlite3_codec :
      MapAnswers → Frame → Option Codec → List ℕ → ℕ → ℕ → Tags → Option (List ℕ × Tags)
  unfolding codec_encrypt codec_decrypt
  sqlite3_codec q f none bytes page mode t = some (bytes, t)
  sqlite3_codec q f (some c) bytes page mode t =
      if not c.is_encrypted
      then some (bytes, t)
      else if mode == mode_undo || mode == mode_reload || mode == mode_load
      then (if c.has_read_key
          then codec_decrypt ae max_page_size c f page bytes t
          else some (bytes, t))
      else if mode == mode_store
      then (if c.has_write_key then codec_encrypt ae q c f page bytes true t else some (bytes, t))
      else if mode == mode_journal
      then (if c.has_read_key then codec_encrypt ae q c f page bytes false t else some (bytes, t))
      else some (bytes, t)

-- `struct Db`: zName, pBt and the codec of its pager, which is pAux too.
pub record Db : Type 0 where
  pub name : List ℕ
  pub bt : ℕ
  pub codec : Option Codec

unfoldable pub encrypted_codec : Option Codec → Bool
encrypted_codec none = false
encrypted_codec (some c) = c.is_encrypted

-- A database of the connection is changed; `none` is an access past the array.
unfoldable pub update_db : ℕ → (Db → Db) → List Db → Option (List Db)
update_db i g [] = none
update_db zero g (d ∷ ds) = some (g d ∷ ds)
update_db (suc i) g (d ∷ ds) = do ds' ← update_db i g ds; some (d ∷ ds')

-- The codec for a key: it encrypts with the key, and reads with it.
unfoldable pub keyed_codec : Codec → List ℕ → ℕ → Codec
unfolding codec_generate_read_key codec_copy_key
keyed_codec c key bt =
    let flagged = record c { is_encrypted = true; has_read_key = true; has_write_key = true } in
    let keyed = codec_copy_key true (codec_generate_read_key key flagged) in
    record keyed { bt = bt }

-- sqlite3CodecAttach; `fresh` is what sqlite3_malloc gives.
unfoldable pub codec_attach : Codec → List Db → ℕ → Option (List ℕ) → ℕ → Option (List Db)
unfolding codec_init codec_copy update_db keyed_codec
codec_attach fresh dbs n_db none n_key =
    if not (n_db == 0) && is_positive n_key
    then (do
      main ← get_elem? dbs 0
      elim main.codec [
        | none ↦ some dbs
        | some m ↦
            if m.is_encrypted
            then update_db n_db
                (λ d. record d {
                  codec = some (record (codec_copy (codec_init fresh) m) { bt = d.bt });
                })
                dbs
            else some dbs
      ])
    else some dbs
codec_attach fresh dbs n_db (some key) n_key =
    if is_positive n_key
    then update_db n_db (λ d. record d { codec = some (keyed_codec (codec_init fresh) key d.bt) })
        dbs
    else some dbs

-- The length of the key that sqlite3CodecGetKey gives; the key is NULL.
unfoldable pub codec_get_key : List Db → Option ℕ
unfolding encrypted_codec
codec_get_key dbs = do main ← get_elem? dbs 0; some (if encrypted_codec main.codec then 1 else 0)

unfoldable pub find_from : ℕ → List Db → List ℕ → ℕ
unfolding same_bytes
find_from index [] name = 0
find_from index (d ∷ ds) name =
    if same_bytes d.name name then index else find_from (index + 1) ds name

-- dbFindIndex; a name that no database has is the first.
unfoldable pub db_find_index : List Db → Option (List ℕ) → ℕ
unfolding find_from
db_find_index dbs none = 0
db_find_index dbs (some name) = find_from 0 dbs name

unfoldable pub sqlite3_key_v2 :
    Codec → List Db → Option (List ℕ) → Option (List ℕ) → ℕ → Option (List Db)
unfolding codec_attach db_find_index
sqlite3_key_v2 fresh dbs db_name key n_key =
    codec_attach fresh dbs (db_find_index dbs db_name) key n_key
