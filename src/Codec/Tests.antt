-- ===== src/Codec/Tests.antt =====
-- Pages of a map of five lists, as in optee_examples/tee_sqilte/ta/codec.c.
use tee_sqlite.Prelude.{
  ℕ, suc, ◌+◌, ◌-◌, ◌≡◌, refl, ap, Bool, true, false, List, [], ◌∷◌, some, arith, map, length,
  replicate, ◌==◌, if◌then◌else◌, inl,
}
use tee_sqlite.HashMap.{Store}
use tee_sqlite.HashMap.Items.{set_item}
use tee_sqlite.HashMap.Table.{hash, set_bucket}
use tee_sqlite.HashMap.Maps.{hm_set}
use tee_sqlite.HashMap.Buckets.{each-IsKeyed}
use tee_sqlite.HashMap.Growth.{IsTable}
use tee_sqlite.HashMap.Growth.{view}
use tee_sqlite.Codec.{Codec, Ae, Tags, slice, put, set_bytes}
use tee_sqlite.Codec.Pages.{
  Frame, enter, codec_encrypt, encrypt_from, aes_encrypt, record_tag, chosen_key,
}
use tee_sqlite.Codec.Sealed.{AeLaws, memory_there, Sealed}
use tee_sqlite.Codec.RoundTrip.{IsReady, IsNew, Restored}

-- Each byte is one more, and the tag is what was encrypted.
abbrev pub shift : Ae
shift = record {
  encrypt = λ k src. (true, map (λ b. b + 1) src, src);
  decrypt = λ k src mac. (true, map (λ b. b - 1) src);
}

length-map : (xs : List ℕ) → length (map (λ b. b + 1) xs) ≡ length xs
length-map [] = refl
length-map (x ∷ xs) = ap suc (length-map xs)

map-map : (xs : List ℕ) → map (λ b. b - 1) (map (λ b. b + 1) xs) ≡ xs
map-map [] = refl
map-map (x ∷ xs) = ground (arith, map-map xs)

pub shift_laws : AeLaws shift
shift_laws = record {
  kept = λ k src. length-map src;
  opened = λ k src. ap (λ l. (true, l)) (map-map src);
}

abbrev pub codec : Codec
codec = record {
  is_encrypted = true;
  has_read_key = true;
  read_key = replicate 16 1;
  has_write_key = true;
  write_key = replicate 16 1;
  tag = [];
  bt = 0;
}

abbrev pub encrypting : Frame
encrypting = record { page_at = 900; header_at = 901; mac_at = 902; stale = [] }

abbrev pub decrypting : Frame
decrypting = record { page_at = 910; header_at = 911; mac_at = 912; stale = [] }

abbrev pub never : ℕ → ℕ → Bool
never count size = false

abbrev pub empty : Tags
empty = record {
  map = record { items = [] ∷ [] ∷ [] ∷ [] ∷ [] ∷ []; count = 0; size = 5 };
  store = record { ints = λ a. 0; freed = [] };
  bytes = λ a. [];
}

pub empty-IsTable : (s : Store) → IsTable empty.map s
empty-IsTable s = record {
  width = refl;
  keyed = each-IsKeyed empty.map s (tt, (tt, (tt, (tt, (tt, tt)))));
}

abbrev pub page : List ℕ
page = 5 ∷ 6 ∷ 7 ∷ []

abbrev pub sealed : Tags
sealed = record {
  map = record {
    items = [] ∷ [] ∷ [] ∷ (record { key = 900; value = 902 } ∷ []) ∷ [] ∷ [];
    count = 1;
    size = 5;
  };
  store = (enter encrypting 3 empty).store;
  bytes = (set_bytes 902 page (enter encrypting 3 empty)).bytes;
}

pub codec_encrypt-sealed :
    codec_encrypt shift (memory_there never) codec encrypting 3 page true empty
    ≡ some (6 ∷ 7 ∷ 8 ∷ [], sealed)
unfolding codec_encrypt encrypt_from aes_encrypt record_tag chosen_key slice put hm_set set_item
    hash set_bucket
codec_encrypt-sealed = refl

pub encrypting-IsReady : IsReady encrypting 3 empty
encrypting-IsReady = record {
  table = empty-IsTable _;
  page_at = λ e. omega arith;
  positive = omega arith;
  within = omega arith;
}

pub empty-IsNew : IsNew never 3 empty
empty-IsNew = record { no_item = refl; steady = λ n. refl }

sealed-IsTable : (s : Store) → s.ints 900 ≡ 3 → IsTable sealed.map s
sealed-IsTable s h = record {
  width = refl;
  keyed = each-IsKeyed sealed.map s (tt, (tt, (tt, ((h, tt), (tt, tt)))));
}

-- The map that is loaded, with the number and the tag of page 3 at addresses of their own.
abbrev pub restored : Tags
restored = record {
  map = record {
    items = [] ∷ [] ∷ [] ∷ (record { key = 2000; value = 2016 } ∷ []) ∷ [] ∷ [];
    count = 1;
    size = 5;
  };
  store = record { ints = λ a. if a == 2000 then 3 else 0; freed = [] };
  bytes = λ a. if a == 2016 then page else [];
}

pub restored-Restored : Restored decrypting 3 2016 (sealed.bytes 902) restored
unfolding view
restored-Restored = record {
  ready = record {
    table = record {
      width = refl;
      keyed =
          each-IsKeyed restored.map (enter decrypting 3 restored).store
            (tt, (tt, (tt, ((refl, tt), (tt, tt)))));
    };
    page_at = λ e. omega arith;
    positive = omega arith;
    within = omega arith;
  };
  items = record { key = 2000; value = 2016 } ∷ [];
  listed = refl;
  own = (inl (omega arith), inl (omega arith), inl (omega arith), tt);
  there = λ e. omega arith;
  apart = inl (omega arith);
  known = refl;
  tag = refl;
}

-- Page 2 after page 3, with the tag at the same address.
abbrev encrypting_again : Frame
encrypting_again = record { page_at = 920; header_at = 921; mac_at = 902; stale = [] }

abbrev page_two : List ℕ
page_two = 8 ∷ 8 ∷ 8 ∷ []

abbrev sealed_again : Tags
sealed_again = record {
  map = record {
    items =
        []
        ∷ []
        ∷ (record { key = 920; value = 902 } ∷ [])
        ∷ (record { key = 900; value = 902 } ∷ [])
        ∷ []
        ∷ [];
    count = 2;
    size = 5;
  };
  store = (enter encrypting_again 2 sealed).store;
  bytes = (set_bytes 902 page_two (enter encrypting_again 2 sealed)).bytes;
}

codec_encrypt-sealed_again :
    codec_encrypt shift (memory_there never) codec encrypting_again 2 page_two true sealed
    ≡ some (9 ∷ 9 ∷ 9 ∷ [], sealed_again)
unfolding codec_encrypt encrypt_from aes_encrypt record_tag chosen_key slice put hm_set set_item
    hash set_bucket
codec_encrypt-sealed_again = refl

encrypting_again-IsReady : IsReady encrypting_again 2 sealed
encrypting_again-IsReady = record {
  table = sealed-IsTable _ refl;
  page_at = λ e. omega arith;
  positive = omega arith;
  within = omega arith;
}
