-- ===== src/Codec/Rewrite.antt =====
-- sqlite3_rekey_v2 of optee_examples/tee_sqilte/ta/codecext.c. What SQLite answers to it, in a
-- transaction, is a parameter.
use tee_sqlite.Prelude.{
  ℕ, zero, suc, ◌+◌, ◌/◌, ◌==◌, not, true, false, List, [], ◌∷◌, Option, none, some, if◌then◌else◌,
}
use tee_sqlite.Codec.{Codec, codec_init, codec_copy_key, codec_generate_write_key}

-- What sqlite3BtreeBeginTrans, sqlite3PagerGet and sqlite3PagerWrite of a page, and sqlite3BtreeCommit
-- return, and the number and the size of pages.
pub record Answers : Type 0 where
  pub begin_trans : ℕ
  pub page_get : ℕ → ℕ
  pub page_write : ℕ → ℕ
  pub commit : ℕ
  pub page_count : ℕ
  pub page_size : ℕ

-- The loop over the pages from `n` on, of which `left` are left: the result, and the pages that were
-- given to sqlite3PagerWrite.
unfoldable pub rewrite_pages : Answers → ℕ → ℕ → ℕ → ℕ × List ℕ
rewrite_pages a skip n zero = (0, [])
rewrite_pages a skip n (suc left) =
    let (rc, pages) = rewrite_pages a skip (n + 1) left in
    if n == skip
    then (rc, pages)
    else if not (a.page_get n == 0)
    then (a.page_get n, [])
    else if not (a.page_write n == 0)
    then (a.page_write n, n ∷ [])
    else (rc, n ∷ pages)

-- WX_PAGER_MJ_PGNO; PENDING_BYTE is SQLite's.
unfoldable pub skipped_page : ℕ → ℕ → ℕ
skipped_page pending_byte page_size = pending_byte / page_size + 1

-- The transaction: a failure is rolled back.
unfoldable pub rewrite : ℕ → Answers → ℕ × List ℕ
unfolding rewrite_pages skipped_page
rewrite pending_byte a =
    if a.begin_trans == 0
    then (let (rc, pages) =
          rewrite_pages a (skipped_page pending_byte a.page_size) 1 a.page_count in
        (if rc == 0 then a.commit else rc, pages))
    else (a.begin_trans, [])

-- A key that is NULL or empty is none.
unfoldable pub given_key : Option (List ℕ) → ℕ → Option (List ℕ)
given_key none n_key = none
given_key (some key) n_key = if n_key == 0 then none else some key

-- Where the database is not encrypted yet.
unfoldable pub begin_encryption : Codec → ℕ → List ℕ → Codec
unfolding codec_generate_write_key
begin_encryption c bt key =
    let flagged = record c { is_encrypted = true; has_read_key = false; has_write_key = true } in
    let keyed = codec_generate_write_key key flagged in record keyed { bt = bt }

-- The codec with which the pages are written; `none` is where there is nothing to do.
unfoldable pub rekey_begin : Codec → Option Codec → ℕ → Option (List ℕ) → Option Codec
unfolding codec_init codec_generate_write_key begin_encryption
rekey_begin fresh none bt none = none
rekey_begin fresh none bt (some key) = some (begin_encryption (codec_init fresh) bt key)
rekey_begin fresh (some c) bt none =
    if c.is_encrypted then some (record c { has_write_key = false }) else none
rekey_begin fresh (some c) bt (some key) = some (
    if c.is_encrypted
    then record (codec_generate_write_key key c) { has_write_key = true }
    else begin_encryption c bt key)

-- The keys once the pages are written, or not.
unfoldable pub rekey_end : ℕ → Codec → Codec
unfolding codec_copy_key
rekey_end rc c =
    if rc == 0
    then (if c.has_write_key
        then record (codec_copy_key false c) { has_read_key = true }
        else record c { is_encrypted = false })
    else (if c.has_read_key then codec_copy_key true c else record c { is_encrypted = false })

-- A codec that does not encrypt is removed from the pager.
abbrev kept_codec : Codec → Option Codec
kept_codec c = if c.is_encrypted then some c else none

-- The codec of the pager after the transaction returned `rc`.
unfoldable pub rekeyed :
    ℕ → List ℕ → Codec → Option Codec → ℕ → Option (List ℕ) → ℕ × List ℕ × Option Codec
unfolding rekey_begin rekey_end
rekeyed rc pages fresh codec bt new = elim (rekey_begin fresh codec bt new) [
  | none ↦ (0, [], codec)
  | some c ↦ (rc, pages, kept_codec (rekey_end rc c))
]

-- What is returned, the pages written, and the codec of the pager.
unfoldable pub sqlite3_rekey_v2 :
    ℕ → Answers → Codec → Option Codec → ℕ → Option (List ℕ) → ℕ → ℕ × List ℕ × Option Codec
unfolding rewrite given_key rekeyed
sqlite3_rekey_v2 pending_byte a fresh codec bt key n_key =
    let (rc, pages) = rewrite pending_byte a in
    rekeyed rc pages fresh codec bt (given_key key n_key)
