-- ===== src/Codec/KeyTests.antt =====
-- Keys that are attached and changed, as in optee_examples/tee_sqilte/ta/codecext.c.
use tee_sqlite.Prelude.{ℕ, ◌≡◌, ◌≢◌, refl, List, [], ◌∷◌, none, some, arith, replicate}
use tee_sqlite.Codec.{Codec, codec_init, codec_copy_key, generate_key, codec_generate_read_key}
use tee_sqlite.Codec.Keys.{Db, update_db, keyed_codec, codec_attach}
use tee_sqlite.Codec.Rewrite.{Answers, rewrite, rewrite_pages, skipped_page, given_key}
use tee_sqlite.Codec.Attach.{AllSettled, codec_attach-AllSettled}
use tee_sqlite.Codec.Tests.{codec}

abbrev pending_byte : ℕ
pending_byte = 1024

-- Three pages, of which the second is that of the locks, with what sqlite3BtreeCommit returns.
abbrev answers : ℕ → Answers
answers commit = record {
  begin_trans = 0;
  page_get = λ n. 0;
  page_write = λ n. 0;
  commit = commit;
  page_count = 3;
  page_size = 1024;
}

abbrev new_key : List ℕ
new_key = replicate 16 2

rewritten : (rewrite pending_byte (answers 0)).0 ≡ 0
unfolding rewrite rewrite_pages skipped_page
rewritten = refl

not_rewritten : (rewrite pending_byte (answers 5)).0 ≢ 0
unfolding rewrite rewrite_pages skipped_page
not_rewritten = λ e. omega (arith, e)

no_key : given_key none 0 ≡ none
unfolding given_key
no_key = refl

abbrev main_db : Db
main_db = record { name = 109 ∷ []; bt = 7; codec = none }

abbrev keyed_db : Db
keyed_db = record main_db {
  codec = some (record codec { read_key = new_key; write_key = new_key; bt = 7 });
}

attached : codec_attach codec (main_db ∷ []) 0 (some new_key) 16 ≡ some (keyed_db ∷ [])
unfolding codec_attach update_db keyed_codec codec_init codec_copy_key codec_generate_read_key
    generate_key
attached = refl

codec_attach-AllSettled_example : AllSettled (keyed_db ∷ [])
codec_attach-AllSettled_example =
    codec_attach-AllSettled codec (main_db ∷ []) 0 (some new_key) 16 (tt, tt) attached

-- A codec whose key for writing is a new one.
abbrev rekeying : Codec
rekeying = record codec { write_key = new_key }
