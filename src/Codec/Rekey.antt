-- ===== src/Codec/Rekey.antt =====
-- The key in force before and after sqlite3_rekey_v2 and sqlite3CodecAttach of
-- optee_examples/tee_sqilte/ta/codecext.c.
use tee_sqlite.Prelude.{
  ℕ, ◌≡◌, ◌≢◌, ◌⊎◌, inl, inr, refl, ◌==◌, true, false, List, Option, none, some, if◌then◌else◌,
  arith, Bool-cases,
}
use tee_sqlite.Codec.{
  Codec, Ae, Tags, codec_init, codec_copy_key, generate_key, codec_generate_write_key,
}
use tee_sqlite.Codec.Pages.{Frame, MapAnswers}
use tee_sqlite.Codec.Keys.{sqlite3_codec, mode_store}
use tee_sqlite.Codec.Rewrite.{
  Answers, rewrite, given_key, begin_encryption, rekey_begin, rekey_end, rekeyed, sqlite3_rekey_v2,
}

-- The keys in force: the one with which pages of the database are read, and the one with which they are
-- written, if any; without it they are written in the clear.
unfoldable pub keys_of : Option Codec → Option (List ℕ × Option (List ℕ))
keys_of none = none
keys_of (some c) =
    if c.is_encrypted
    then some (c.read_key, if c.has_write_key then some c.write_key else none)
    else none

-- Between operations a pager has no codec, or one that reads and writes with one key.
pub record OneKey (c : Codec) : Type 0 where
  pub encrypts : c.is_encrypted ≡ true
  pub reads : c.has_read_key ≡ true
  pub writes : c.has_write_key ≡ true
  pub agree : c.write_key ≡ c.read_key

abbrev pub Settled : Option Codec → Type 0
Settled none = Unit {0}
Settled (some c) = OneKey c

-- The keys that are asked for.
abbrev pub asked_keys : Option (List ℕ) → Option (List ℕ × Option (List ℕ))
asked_keys none = none
asked_keys (some k) = some (generate_key k, some (generate_key k))

-- The keys after a failure: those before, but none to write with where none was asked for.
abbrev pub failed_keys :
    Option (List ℕ) → Option (List ℕ × Option (List ℕ)) → Option (List ℕ × Option (List ℕ))
failed_keys (some k) keys = keys
failed_keys none none = none
failed_keys none (some (reads, writes)) = some (reads, none)

rekeyed-Settled :
    (rc : ℕ) (pages : List ℕ) (fresh : Codec) (codec : Option Codec) (bt : ℕ)
    (new : Option (List ℕ))
    → Settled codec
    → (rc ≡ 0) ⊎ (new ≢ none)
    → Settled (rekeyed rc pages fresh codec bt new).2
unfolding rekeyed keys_of rekey_begin rekey_end begin_encryption codec_init codec_generate_write_key
    codec_copy_key generate_key
rekeyed-Settled rc pages fresh none bt none settled way = tt
rekeyed-Settled rc pages fresh none bt (some key) settled way = elim (Bool-cases (rc == 0)) [
  | inl ok ↦
      rw (ok, if◌then◌else◌) (record { encrypts = refl; reads = refl; writes = refl; agree = refl })
  | inr failed ↦ rw (failed, if◌then◌else◌) tt
]
rekeyed-Settled rc pages fresh (some c) bt none settled way =
    rw (settled.encrypts, if◌then◌else◌)
      (elim way [
        | inl ok ↦ let done : (rc == 0) ≡ true = ground arith in rw (done, if◌then◌else◌) tt
        | inr given ↦ absurd (given refl)
      ])
rekeyed-Settled rc pages fresh (some c) bt (some key) settled way =
    rw (settled.encrypts, if◌then◌else◌)
      (elim (Bool-cases (rc == 0)) [
        | inl ok ↦
            rw (ok, if◌then◌else◌)
              (record { encrypts = refl; reads = refl; writes = refl; agree = refl })
        | inr failed ↦
            rw (failed, if◌then◌else◌, settled.reads)
              (record { encrypts = refl; reads = refl; writes = refl; agree = refl })
      ])

-- sqlite3_rekey_v2 leaves a pager without a codec, or with one that reads and writes with one key,
-- where there was such a one before, unless it fails to take the encryption away.
sqlite3_rekey_v2-Settled :
    (pending_byte : ℕ) (a : Answers) (fresh : Codec) (codec : Option Codec) (bt : ℕ)
    (key : Option (List ℕ)) (n_key : ℕ)
    → Settled codec
    → ((rewrite pending_byte a).0 ≡ 0) ⊎ (given_key key n_key ≢ none)
    → Settled (sqlite3_rekey_v2 pending_byte a fresh codec bt key n_key).2
unfolding sqlite3_rekey_v2
sqlite3_rekey_v2-Settled pending_byte a fresh codec bt key n_key settled way =
    rekeyed-Settled (rewrite pending_byte a).0 (rewrite pending_byte a).1 fresh codec bt
      (given_key key n_key) settled way

rekeyed_failed :
    (rc : ℕ) (pages : List ℕ) (fresh c : Codec) (bt : ℕ)
    → OneKey c
    → rc ≢ 0
    → (rekeyed rc pages fresh (some c) bt none).2
      ≡ some (record c { has_write_key = false; write_key = c.read_key })
unfolding rekeyed rekey_begin rekey_end codec_copy_key
rekeyed_failed rc pages fresh c bt settled failed =
    let wrong : (rc == 0) ≡ false = ground arith in
    rw (settled.encrypts, if◌then◌else◌, wrong, if◌then◌else◌, settled.reads) refl

-- Where sqlite3_rekey_v2 fails to take the encryption away, the database stays encrypted, but pages
-- that SQLite stores from then on are in the clear.
sqlite3_codec-sqlite3_rekey_v2 :
    (ae : Ae) (max_page_size : ℕ) (q : MapAnswers) (f : Frame) (pending_byte : ℕ) (a : Answers)
    (fresh c : Codec) (bt n_key page : ℕ) (key : Option (List ℕ)) (bytes : List ℕ) (t : Tags)
    → OneKey c
    → (rewrite pending_byte a).0 ≢ 0
    → given_key key n_key ≡ none
    → (keys_of (sqlite3_rekey_v2 pending_byte a fresh (some c) bt key n_key).2
        ≡ some (c.read_key, none))
      × (sqlite3_codec ae max_page_size q f
            (sqlite3_rekey_v2 pending_byte a fresh (some c) bt key n_key).2
            bytes
            page
            mode_store
            t
          ≡ some (bytes, t))
unfolding sqlite3_rekey_v2 sqlite3_codec keys_of
sqlite3_codec-sqlite3_rekey_v2 ae max_page_size q f pending_byte a fresh c bt n_key page key bytes t
      settled failed no_key =
    let left =
      rekeyed_failed (rewrite pending_byte a).0 (rewrite pending_byte a).1 fresh c bt settled
        failed in
    rw (no_key, left, settled.encrypts, if◌then◌else◌) (refl, refl)
