-- ===== src/Codec/HeaderTests.antt =====
-- Page 1, as in optee_examples/tee_sqilte/ta/codec.c.
use tee_sqlite.Prelude.{ℕ, List, [], ◌∷◌, ◌++◌, ◌==◌, if◌then◌else◌}
use tee_sqlite.Codec.{Tags, set_bytes, set_int}
use tee_sqlite.Codec.Pages.{enter, file_header}
use tee_sqlite.Codec.Tests.{encrypting, empty}

-- Page 1 of a database with pages of 4096 bytes.
abbrev db_header : List ℕ
db_header = 16 ∷ 0 ∷ 1 ∷ 1 ∷ 0 ∷ 64 ∷ 32 ∷ 32 ∷ []

abbrev first_page : List ℕ
first_page = file_header ++ (db_header ++ (1 ∷ 2 ∷ []))

abbrev sealed_first : Tags
sealed_first =
    let t1 = set_int 901 0 (enter encrypting 1 empty) in
    record {
      map = record {
        items =
            (record { key = 901; value = 902 } ∷ [])
            ∷ (record { key = 900; value = 902 } ∷ [])
            ∷ []
            ∷ []
            ∷ []
            ∷ [];
        count = 2;
        size = 5;
      };
      store = t1.store;
      bytes = (set_bytes 902 (db_header ++ (1 ∷ 2 ∷ [])) (set_bytes 902 file_header t1)).bytes;
    }

abbrev first_encrypted : List ℕ
first_encrypted =
    84 ∷ 82 ∷ 77 ∷ 106 ∷ 117 ∷ 102 ∷ 33 ∷ 103 ∷ 17 ∷ 1 ∷ 2 ∷ 2 ∷ 1 ∷ 65 ∷ 33 ∷ 33 ∷ 16 ∷ 0 ∷ 1 ∷ 1
    ∷ 0 ∷ 64 ∷ 32 ∷ 32 ∷ 2 ∷ 3 ∷ []

-- The map that is loaded, with the number and the tag of page 1 at addresses of their own.
abbrev restored_first : Tags
restored_first = record {
  map = record {
    items = [] ∷ (record { key = 2000; value = 2016 } ∷ []) ∷ [] ∷ [] ∷ [] ∷ [];
    count = 1;
    size = 5;
  };
  store = record { ints = λ a. if a == 2000 then 1 else 0; freed = [] };
  bytes = λ a. if a == 2016 then db_header ++ (1 ∷ 2 ∷ []) else [];
}
