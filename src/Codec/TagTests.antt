-- ===== src/Codec/TagTests.antt =====
-- A file in memory for createMap and closeMap of optee_examples/tee_sqilte/ta/codec.c, and a map of
-- two tags.
use tee_sqlite.Prelude.{
  ℕ, ◌+◌, ◌-◌, ◌*◌, ◌≤◌, ◌≡◌, refl, Bool, List, [], ◌∷◌, ◌++◌, none, some, ◌==◌, if◌then◌else◌, ltb,
  arith, take, drop, drop-ge, length, replicate,
}
use tee_sqlite.TaVfs.{Utee}
use tee_sqlite.TaVfs.Names.{Paths}
use tee_sqlite.Codec.{Tags, slice}
use tee_sqlite.Codec.Bytes.{take_self, append_nil}
use tee_sqlite.Codec.TagFile.{Allocs, close_map}
use tee_sqlite.Codec.TagLaws.{IsTagFile}
use tee_sqlite.Codec.TagSaved.{Saved, close_map-Saved}

-- A file, and the offset of its descriptor.
record File : Type 0 where
  bytes : List ℕ
  ofst : ℕ

abbrev file : File → List ℕ
file f = f.bytes

abbrev pos : ℕ → File → ℕ
pos fd f = f.ofst

abbrev On : ℕ → File → Type 0
On fd f = Unit {0}

abbrev written : List ℕ → ℕ → List ℕ → List ℕ
written l o bs = take o l ++ (bs ++ drop (o + length bs) l)

abbrev memory : Utee File
memory = record {
  lseek = λ fd o f. (o, record f { ofst = o });
  write = λ fd bs f.
      (length bs, record { bytes = written f.bytes f.ofst bs; ofst = f.ofst + length bs });
  read = λ fd k f.
      let left = length f.bytes - f.ofst in
      let r = if ltb left k then left else k in
      (r, slice f.ofst k f.bytes, record f { ofst = f.ofst + r });
  fsync = λ fd f. (0, f);
  close = λ fd f. f;
  filesize = λ fd f. (length f.bytes, f);
}

abbrev names : Paths File
names = record {
  open_path =
      λ path flags mode f. (3, record { bytes = if flags == 514 then [] else f.bytes; ofst = 0 });
  unlink = λ path f. (0, 0, f);
  access = λ path m f. (0, f);
  getcwd = λ size f. (none, f);
  sleep = λ k f. f;
  usleep = λ k f. f;
  snprintf = λ size bs. bs;
}

written_end : (l : List ℕ) (o : ℕ) (bs : List ℕ) → o ≡ length l → written l o bs ≡ l ++ bs
written_end l o bs h =
    rw (h, take_self l, drop-ge (length l + length bs) l (omega arith), append_nil bs) refl

read_less : (left k : ℕ) → k ≤ left → ◌≡◌ {A = ℕ} (if ltb left k then left else k) k
read_less left k h = ground arith

read_nothing : (left k : ℕ) → left ≡ 0 → ◌≡◌ {A = ℕ} (if ltb left k then left else k) 0
read_nothing left k h = ground arith

memory-IsTagFile : IsTagFile memory names file pos On
memory-IsTagFile = record {
  truncated_on = λ s. tt;
  truncated = λ s. refl;
  truncated_pos = λ s. refl;
  opened_on = λ s. tt;
  opened = λ s. refl;
  opened_pos = λ s. refl;
  write_on = λ fd bs s on. tt;
  write_end = λ fd bs s on end. written_end s.bytes s.ofst bs end;
  write_pos = λ fd bs s on. refl;
  lseek_on = λ fd o s on. tt;
  lseek_file = λ fd o s on. refl;
  lseek_pos = λ fd o s on. refl;
  read_on = λ fd k s on. tt;
  read_file = λ fd k s on. refl;
  read_end = λ fd k s on end. read_nothing (length s.bytes - s.ofst) k (omega (arith, end));
  read_full = λ fd k s on room. (read_less (length s.bytes - s.ofst) k (omega (arith, room)), refl);
  close_file = λ fd s on. refl;
}

abbrev allocs : Allocs
allocs = record { key_at = λ i. 1000 + 2 * i; tag_at = λ i. 5000 + 2 * i }

-- The numbers 0 and 3 with a tag each.
abbrev tags : Tags
tags = record {
  map = record {
    items =
        (record { key = 300; value = 8 } ∷ [])
        ∷ []
        ∷ []
        ∷ (record { key = 100; value = 7 } ∷ [])
        ∷ []
        ∷ [];
    count = 2;
    size = 5;
  };
  store = record { ints = λ a. if a == 100 then 3 else 0; freed = [] };
  bytes = λ a. replicate 16 a;
}

abbrev fresh_memory : Tags
fresh_memory = record {
  map = record { items = []; count = 0; size = 0 };
  store = record { ints = λ a. 0; freed = [] };
  bytes = λ a. [];
}

abbrev over : ℕ → ℕ → Bool
over count size = ltb size count

old_file : File
old_file = record { bytes = 1 ∷ 2 ∷ []; ofst = 0 }

close_map-Saved_example : Saved file tags (close_map memory names 10 20 (some tags) old_file)
close_map-Saved_example =
    close_map-Saved memory names file pos On 10 20 tags old_file memory-IsTagFile refl refl
      (omega arith)
