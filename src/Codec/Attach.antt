-- ===== src/Codec/Attach.antt =====
-- The codecs of a connection after sqlite3CodecAttach of optee_examples/tee_sqilte/ta/codecext.c.
use tee_sqlite.Prelude.{
  ℕ, zero, suc, ◌≡◌, refl, sym, ap, subst, ◌∙◌, ◌==◌, ◌&&◌, not, List, [], ◌∷◌, Option, none, some,
  some_inj, ◌>>=◌, arith, Bool-cases, Option-cases, inl, inr,
}
use tee_sqlite.Codec.{Codec, codec_init, codec_copy, codec_copy_key, codec_generate_read_key}
use tee_sqlite.Codec.Keys.{Db, update_db, keyed_codec, codec_attach, is_positive}
use tee_sqlite.Codec.Rekey.{OneKey, Settled}

-- Each pager of the connection has no codec, or one that reads and writes with one key.
abbrev pub AllSettled : List Db → Type 0
AllSettled [] = Unit {0}
AllSettled (d ∷ ds) = Settled d.codec × AllSettled ds

update_db-AllSettled :
    (i : ℕ) (g : Db → Db) (ds : List Db)
    → ((d : Db) → Settled (g d).codec)
    → AllSettled ds
    → {ds' : List Db} → update_db i g ds ≡ some ds'
    → AllSettled ds'
unfolding update_db
update_db-AllSettled i g [] good all h = absurd (ground arith)
update_db-AllSettled zero g (d ∷ ds) good all h = subst AllSettled (some_inj h) (good d, all.1)
update_db-AllSettled (suc i) g (d ∷ ds) good all {ds'} h = elim (Option-cases (update_db i g ds)) [
  | inl past ↦ absurd (ground arith)
  | inr (rest, there) ↦
      let whole : d ∷ rest ≡ ds' = some_inj (ap (λ o. o >>= λ l. some (d ∷ l)) (sym there) ∙ h) in
      subst AllSettled whole (all.0, update_db-AllSettled i g ds good all.1 there)
]

keyed_codec-OneKey : (c : Codec) (key : List ℕ) (bt : ℕ) → OneKey (keyed_codec c key bt)
unfolding keyed_codec codec_copy_key codec_generate_read_key
keyed_codec-OneKey c key bt = record { encrypts = refl; reads = refl; writes = refl; agree = refl }

codec_copy-OneKey : (c m : Codec) (bt : ℕ) → OneKey m → OneKey (record (codec_copy c m) { bt = bt })
unfolding codec_copy
codec_copy-OneKey c m bt one = record {
  encrypts = one.encrypts;
  reads = one.reads;
  writes = one.writes;
  agree = one.agree;
}

-- sqlite3CodecAttach, with a key or with that of the main database, gives no pager a codec that does
-- not read and write with one key.
pub codec_attach-AllSettled :
    (fresh : Codec) (dbs : List Db) (n_db : ℕ) (key : Option (List ℕ)) (n_key : ℕ)
    → AllSettled dbs
    → {dbs' : List Db} → codec_attach fresh dbs n_db key n_key ≡ some dbs'
    → AllSettled dbs'
unfolding codec_attach
codec_attach-AllSettled fresh dbs n_db (some key) n_key all {dbs'} h =
    elim (Bool-cases (is_positive n_key)) [
      | inl positive ↦
          update_db-AllSettled n_db
            (λ d. record d { codec = some (keyed_codec (codec_init fresh) key d.bt) }) dbs
            (λ d. keyed_codec-OneKey (codec_init fresh) key d.bt) all (ground (arith, h))
      | inr none_given ↦
          let unchanged : codec_attach fresh dbs n_db (some key) n_key ≡ some dbs = ground arith in
          subst AllSettled (some_inj (sym unchanged ∙ h)) all
    ]
codec_attach-AllSettled fresh [] n_db none n_key all {dbs'} h =
    elim (Bool-cases (not (n_db == 0) && is_positive n_key)) [
      | inl asked ↦ absurd (ground arith)
      | inr not_asked ↦ let same : [] ≡ dbs' = ground arith in subst AllSettled same all
    ]
codec_attach-AllSettled fresh (d ∷ ds) n_db none n_key all {dbs'} h =
    let kept : some (d ∷ ds) ≡ some dbs' → AllSettled dbs' =
      λ same. subst AllSettled (some_inj same) all in
    elim (Bool-cases (not (n_db == 0) && is_positive n_key)) [
      | inr not_asked ↦
          let unchanged : codec_attach fresh (d ∷ ds) n_db none n_key ≡ some (d ∷ ds) =
            ground arith in
          kept (sym unchanged ∙ h)
      | inl asked ↦ elim (Option-cases d.codec) [
        | inl plain ↦
            let unchanged : codec_attach fresh (d ∷ ds) n_db none n_key ≡ some (d ∷ ds) =
              ground arith in
            kept (sym unchanged ∙ h)
        | inr (m, coded) ↦ elim (Bool-cases m.is_encrypted) [
          | inr off ↦
              let unchanged : codec_attach fresh (d ∷ ds) n_db none n_key ≡ some (d ∷ ds) =
                ground arith in
              kept (sym unchanged ∙ h)
          | inl on ↦
              update_db-AllSettled n_db
                (λ e. record e {
                  codec = some (record (codec_copy (codec_init fresh) m) { bt = e.bt });
                })
                (d ∷ ds)
                (λ e. codec_copy-OneKey (codec_init fresh) m e.bt (subst Settled coded all.0)) all
                (ground (arith, h))
        ]
      ]
    ]
