-- ===== src/Codec/TagFile.antt =====
-- The file of tags of optee_examples/tee_sqilte/ta/codec.c: createMap, which reads the map of tags
-- from it, and closeMap, which writes the map to it.
use tee_sqlite.Prelude.{
  ℕ, zero, suc, ◌+◌, ◌*◌, ◌==◌, ◌||◌, Bool, List, [], ◌∷◌, Option, none, some, if◌then◌else◌, leb,
  ◌>>=◌,
}
use tee_sqlite.HashMap.{Store, free}
use tee_sqlite.HashMap.Table.{hm_create}
use tee_sqlite.HashMap.Clear.{hm_delete}
use tee_sqlite.HashMap.Dump.{int_of, hm_dump}
use tee_sqlite.TaVfs.{Utee}
use tee_sqlite.TaVfs.Names.{Paths}
use tee_sqlite.Codec.{Tags, set_int, set_bytes}
use tee_sqlite.Codec.Pages.{MapAnswers, record_tag}

-- "/tmp/mac.log".
abbrev pub mac_log : List ℕ
mac_log = 47 ∷ 116 ∷ 109 ∷ 112 ∷ 47 ∷ 109 ∷ 97 ∷ 99 ∷ 46 ∷ 108 ∷ 111 ∷ 103 ∷ []

-- O_RDWR | O_CREAT and O_RDWR | O_TRUNC as octal numbers, and the mode 0777.
abbrev pub read_flags : ℕ
read_flags = 66

abbrev pub write_flags : ℕ
write_flags = 514

abbrev pub mode : ℕ
mode = 511

-- The pointers in `tmp_pageno`, and in `tmp_tag`, each of 100 elements.
abbrev pub array_size : ℕ
array_size = 100

-- What TEE_Malloc answers for them, by their index: 0 is NULL.
pub record Allocs : Type 0 where
  pub key_at : ℕ → ℕ
  pub tag_at : ℕ → ℕ

-- What TEE_Malloc answers in hm_create.
pub record Created : Type 0 where
  pub map_ok : Bool
  pub items_ok : Bool

unfoldable pub free_int : ℕ → Store → Store
free_int value s = free value s

module _ {S : Type 0} (u : Utee S) where
  -- The loop of createMap, where `left` elements of the arrays are left from `i` on. `set` is hm_set.
  -- An access past the arrays or through NULL has no result.
  unfoldable pub load_loop :
      Allocs → (ℕ → Tags → Option Tags) → ℕ → ℕ → ℕ → Tags → S → Option (Tags × S)
  unfolding int_of
  load_loop a set fd zero i t s = none
  load_loop a set fd (suc left) i t s =
      if a.key_at i == 0
      then none
      else let (n, key_bytes, s1) = u.read fd 4 s in
        let t1 = set_int (a.key_at i) (int_of key_bytes) t in
        if n == 0 || leb 20000 i
        then some (t1, s1)
        else if a.tag_at i == 0
        then none
        else let (o, s2) = u.lseek fd ((i + 1) * 4 + i * 16) s1 in
          let (k, mac, s3) = u.read fd 16 s2 in
          let (o', s4) = u.lseek fd ((i + 1) * 4 + (i + 1) * 16) s3 in
          (do t2 ← set i (set_bytes (a.tag_at i) mac t1); load_loop a set fd left (suc i) t2 s4)

  module _ (n : Paths S) where
    -- `tag` afterwards, `none` for NULL: then a first entry dereferences it. `t` is the memory before.
    unfoldable pub create_map :
        Created → Allocs → (ℕ → MapAnswers) → Tags → S → Option (Option Tags × S)
    unfolding load_loop record_tag
    create_map c a q t s =
        let (fdr, s1) = n.open_path mac_log read_flags mode s in
        elim (hm_create c.map_ok c.items_ok 500) [
          | none ↦ (do
            (t', s2) ← load_loop a (λ i t. none) fdr array_size 0 t s1
            some (none, u.close fdr s2))
          | some m ↦ (do
            (t', s2) ←
                load_loop a (λ i. record_tag (q i) (a.key_at i) (a.tag_at i)) fdr array_size 0
                  (record t { map = m }) s1
            some (some t', u.close fdr s2))
        ]

    -- `items_at` and `map_at` are where the array and the map stand.
    unfoldable pub close_map : ℕ → ℕ → Option Tags → S → Option (Store × S)
    unfolding free_int
    close_map items_at map_at none s = none
    close_map items_at map_at (some t) s =
        let (fdw, s1) = n.open_path mac_log write_flags mode s in
        (do
          s2 ← hm_dump u t.map fdw none t.store t.bytes s1
          store ← hm_delete free_int items_at map_at t.map t.store
          some (store, u.close fdw s2))
