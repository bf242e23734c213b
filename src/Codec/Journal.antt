-- ===== src/Codec/Journal.antt =====
-- Pages through sqlite3Codec of optee_examples/tee_sqilte/ta/codecext.c: those of the database, and
-- those of the journal while the keys differ.
use tee_sqlite.Prelude.{ℕ, ◌^◌, ◌<◌, ◌≡◌, ◌≢◌, Bool, true, List, some}
use tee_sqlite.Codec.{Codec, Ae, Tags}
use tee_sqlite.Codec.Pages.{Frame}
use tee_sqlite.Codec.Sealed.{AeLaws, memory_there}
use tee_sqlite.Codec.RoundTrip.{IsReady, IsNew, Restored, codec_decrypt-codec_encrypt}
use tee_sqlite.Codec.Keys.{sqlite3_codec, mode_load, mode_store}
use tee_sqlite.Codec.Rekey.{OneKey}

module _ (ae : Ae) (laws : AeLaws ae) (over : ℕ → ℕ → Bool) (max_page_size : ℕ) (c : Codec)
    (f f' : Frame) (page : ℕ) (bytes : List ℕ) (t : Tags) where
  -- A page other than 1 that sqlite3Codec encrypted for the database is loaded as what it was, where
  -- the codec reads and writes with one key.
  pub sqlite3_codec-sqlite3_codec_store :
      OneKey c
      → IsReady f page t
      → IsNew over page t
      → t.map.size < 2 ^ 31
      → page ≢ 1
      → {enc : List ℕ} {t1 : Tags}
      → sqlite3_codec ae max_page_size (memory_there over) f (some c) bytes page mode_store t
        ≡ some (enc, t1)
      → {a : ℕ} {t' : Tags} → Restored f' page a (t1.bytes f.mac_at) t'
      → (t2 : Tags) × (sqlite3_codec ae max_page_size
            (memory_there over)
            f'
            (some c)
            enc
            page
            mode_load
            t'
          ≡ some (bytes, t2))
  unfolding sqlite3_codec
  sqlite3_codec-sqlite3_codec_store one ready fresh small other run held =
      rw (one.encrypts, one.reads)
        (codec_decrypt-codec_encrypt ae laws over max_page_size c true f f' page bytes t one.agree
          ready fresh small other (rw (one.encrypts, one.writes) at run) held)
