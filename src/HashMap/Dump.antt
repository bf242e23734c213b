-- ===== src/HashMap/Dump.antt =====
-- hm_print and hm_dump of optee_examples/tee_sqilte/ta/hashmap.c: what is written of a map to a file.
use tee_sqlite.Prelude.{
  ℕ, zero, suc, ◌+◌, ◌*◌, ◌/◌, ◌%◌, ◌==◌, List, [], ◌∷◌, Option, none, some, if◌then◌else◌,
  get_elem?, take, ◌>>=◌,
}
use tee_sqlite.TaVfs.{Utee}
use tee_sqlite.HashMap.{Store, Item}
use tee_sqlite.HashMap.Table.{HashMap}

-- The bytes of an `int` in memory, the low one first, and the `int` of bytes.
unfoldable pub int_bytes : ℕ → List ℕ
int_bytes n = n % 256 ∷ (n / 256) % 256 ∷ (n / 65536) % 256 ∷ (n / 16777216) % 256 ∷ []

unfoldable pub int_of : List ℕ → ℕ
int_of [] = 0
int_of (b ∷ bs) = b + 256 * int_of bs

-- `to_string`, over the file's descriptor, the key and the value.
abbrev pub ToString : Type 0 → Type 0
ToString S = ℕ → ℕ → ℕ → S → S

-- A call of `to_string`, unless it is NULL.
abbrev pub call_to_string : {S : Type 0} → Option (ToString S) → ToString S
call_to_string none output key value s = s
call_to_string (some f) output key value s = f output key value s

-- The loop over the lists of a map, `n` of them from `i` on. An access past the array has no result.
unfoldable pub each_list :
    {S : Type 0} → (List Item → S → S) → ℕ → ℕ → List (List Item) → S → Option S
each_list body zero i items s = some s
each_list body (suc n) i items s = do
  b ← get_elem? items i
  each_list body n (i + 1) items (body b s)

unfoldable pub print_items : {S : Type 0} → ToString S → ℕ → List Item → S → S
print_items f output [] s = s
print_items f output (x ∷ xs) s = print_items f output xs (f output x.key x.value s)

unfoldable pub hm_print : {S : Type 0} → HashMap → ℕ → Option (ToString S) → S → Option S
unfolding each_list print_items
hm_print m output none s = some s
hm_print m output (some f) s = each_list (print_items f output) m.size 0 m.items s

module _ {S : Type 0} (u : Utee S) where
  -- The number behind the key and the 16 bytes at the value; what the writes return is not looked at.
  unfoldable pub dump_items : ℕ → Option (ToString S) → Store → (ℕ → List ℕ) → List Item → S → S
  unfolding int_bytes
  dump_items output to_string store bytes [] s = s
  dump_items output to_string store bytes (x ∷ xs) s =
      let (n, s1) = u.write output (int_bytes (store.ints x.key)) s in
      let (m, s2) = u.write output (take 16 (bytes x.value)) s1 in
      dump_items output to_string store bytes xs (call_to_string to_string output x.key x.value s2)

  unfoldable pub hm_dump : HashMap → ℕ → Option (ToString S) → Store → (ℕ → List ℕ) → S → Option S
  unfolding each_list dump_items
  hm_dump m output to_string store bytes s =
      if m.count == 0
      then some s
      else each_list (dump_items output to_string store bytes) m.size 0 m.items s
