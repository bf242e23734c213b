-- ===== src/Codec/Header.antt =====
-- CodecDecrypt after CodecEncrypt in optee_examples/tee_sqilte/ta/codec.c for page 1, whose header
-- stands in the clear.
use tee_sqlite.Prelude.{ℕ, ◌^◌, ◌<◌, ◌≡◌, ◌≢◌, Bool, List, ◌++◌, Option, some}
use tee_sqlite.HashMap.Table.{next_size}
use tee_sqlite.HashMap.Growth.{IsTable, view}
use tee_sqlite.Codec.{Codec, Ae, Tags, set_int}
use tee_sqlite.Codec.Pages.{Frame, enter, expose_header, file_header}
use tee_sqlite.Codec.Sealed.{encrypted}

-- The locals of an encryption of page 1, with `pageHeader`.
pub record IsReadyFirst (f : Frame) (t : Tags) : Type 0 where
  pub table : IsTable t.map (set_int f.header_at 0 (enter f 1 t)).store
  pub page_at : f.page_at ≢ 0
  pub header_at : f.header_at ≢ 0
  pub apart : f.header_at ≢ f.page_at
  pub mac_at : f.mac_at ≢ 0
  pub within : 1 < t.map.size
  pub small : t.map.size < 2 ^ 31
  pub next_small : next_size t.map.size < 2 ^ 31

-- The tags after both parts of page 1 are encrypted: that of the second is recorded for 1.
record SealedFirst (ae : Ae) (c : Codec) (use_write_key : Bool) (f : Frame) (h rest : List ℕ)
    (r : Option (List ℕ × Tags)) : Type 0 where
  tags : Tags
  run :
      r
      ≡ some (
        expose_header h (
            (encrypted ae c use_write_key file_header).1
            ++ (encrypted ae c use_write_key (h ++ rest)).1),
        tags,
      )
  known : view tags.map 1 ≡ f.mac_at
  tag : tags.bytes f.mac_at ≡ (encrypted ae c use_write_key (h ++ rest)).2
