-- ===== src/Codec.antt =====
-- The page codec of the trusted application, optee_examples/tee_sqilte/ta/codec.c and codecext.c, as
-- it is built (CODEC_TYPE is CODEC_TYPE_GCM128): keys and flags, the encryption of pages, and the map
-- of tags. AES-GCM is that of the TEE, a parameter.
pub mod Pages
pub mod Bytes
pub mod Sealed
pub mod RoundTrip
pub mod Header
pub mod Alias
pub mod Handles
pub mod Operations
mod HandleTests
pub mod Keys
pub mod Rewrite
pub mod Rekey
pub mod Written
pub mod Attach
pub mod Journal
pub mod TagFile
pub mod TagSaved
pub mod TagLaws
pub mod TagTaken
pub mod TagLoaded
pub mod TagRestore
pub mod TagEntries
mod Tests
mod TagTests
mod KeyTests
mod HeaderTests
use tee_sqlite.Prelude.{
  ℕ, ◌+◌, ◌-◌, ◌==◌, Bool, true, false, List, [], ◌∷◌, ◌++◌, take, drop, length, replicate,
  if◌then◌else◌,
}
use tee_sqlite.HashMap.{Store}
use tee_sqlite.HashMap.Table.{HashMap}

-- `Codec`, less the handles of the TEE, of which only those for an operation under way are used, and
-- m_page, a buffer. Flags are ints that are tested.
pub record Codec : Type 0 where
  pub is_encrypted : Bool
  pub has_read_key : Bool
  pub read_key : List ℕ
  pub has_write_key : Bool
  pub write_key : List ℕ
  pub tag : List ℕ
  pub bt : ℕ

-- KEYLENGTH, and the size of a tag.
abbrev pub key_length : ℕ
key_length = 16

abbrev pub tag_size : ℕ
tag_size = 16

-- CodecInit; the rest of the struct is as sqlite3_malloc left it.
unfoldable pub codec_init : Codec → Codec
codec_init c = record c { is_encrypted = false; has_read_key = false; has_write_key = false }

unfoldable pub codec_copy : Codec → Codec → Codec
codec_copy c other = record c {
  is_encrypted = other.is_encrypted;
  has_read_key = other.has_read_key;
  has_write_key = other.has_write_key;
  read_key = other.read_key;
  write_key = other.write_key;
  tag = other.tag;
  bt = other.bt;
}

-- `read2write` chooses the direction.
unfoldable pub codec_copy_key : Bool → Codec → Codec
codec_copy_key read2write c =
    if read2write then record c { write_key = c.read_key } else record c { read_key = c.write_key }

-- KEYLENGTH bytes from the password on, whatever its length: `password` is the memory from there on.
unfoldable pub generate_key : List ℕ → List ℕ
generate_key password = take key_length password

unfoldable pub codec_generate_read_key : List ℕ → Codec → Codec
unfolding generate_key
codec_generate_read_key password c = record c { read_key = generate_key password }

unfoldable pub codec_generate_write_key : List ℕ → Codec → Codec
unfolding generate_key
codec_generate_write_key password c = record c { write_key = generate_key password }

-- TEE_AEEncryptFinal and TEE_AEDecryptFinal behind `reset` with a key and the initial vector, which is
-- all zeros: whether they succeed, the bytes at the destination, and the tag. The TEE is not part of
-- the repository, so it is a parameter.
pub record Ae : Type 0 where
  pub encrypt : List ℕ → List ℕ → Bool × List ℕ × List ℕ
  pub decrypt : List ℕ → List ℕ → List ℕ → Bool × List ℕ

-- The map of tags with what its pointers point to: the numbers behind keys, and the bytes of tags.
pub record Tags : Type 0 where
  pub map : HashMap
  pub store : Store
  pub bytes : ℕ → List ℕ

-- `*a = n` for a key, and a copy of a tag to `a`.
abbrev pub set_int : ℕ → ℕ → Tags → Tags
set_int a n t = record t {
  store = record t.store { ints = λ b. if b == a then n else t.store.ints b };
}

abbrev pub set_bytes : ℕ → List ℕ → Tags → Tags
set_bytes a bs t = record t { bytes = λ b. if b == a then bs else t.bytes b }

-- Bytes of a page: `n` from `ofst` on, and memcpy to `ofst`.
unfoldable pub slice : ℕ → ℕ → List ℕ → List ℕ
slice ofst n page = take n (drop ofst page)

unfoldable pub put : ℕ → List ℕ → List ℕ → List ℕ
put ofst bs page = take ofst page ++ (bs ++ drop (ofst + length bs) page)
