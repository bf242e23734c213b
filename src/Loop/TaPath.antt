-- ===== src/Loop/TaPath.antt =====
-- set_ta_path of optee_client/tee-supplicant/tee_supplicant.c: the directories of trusted applications,
-- from a string in which colons separate them.
use tee_sqlite.Prelude.{
  ℕ, zero, suc, ◌+◌, ◌==◌, Bool, List, [], ◌∷◌, Option, none, some, length, if◌then◌else◌, ◌>>=◌,
}

abbrev pub colon : ℕ
colon = 58

-- strtok_r with ":" as the delimiters: colons in front are skipped; the token ends at the next colon or
-- at the end, and `*saveptr` stands behind it.
unfoldable pub skip_colons : List ℕ → List ℕ
skip_colons [] = []
skip_colons (c ∷ s) = if c == colon then skip_colons s else c ∷ s

unfoldable pub token : List ℕ → List ℕ
token [] = []
token (c ∷ s) = if c == colon then [] else c ∷ token s

unfoldable pub behind_token : List ℕ → List ℕ
behind_token [] = []
behind_token (c ∷ s) = if c == colon then s else behind_token s

abbrev pub split_token : List ℕ → Option (List ℕ × List ℕ)
split_token [] = none
split_token (c ∷ s) = some (token (c ∷ s), behind_token (c ∷ s))

unfoldable pub strtok_r : List ℕ → Option (List ℕ × List ℕ)
unfolding skip_colons token behind_token
strtok_r s = split_token (skip_colons s)

-- The first loop, with fuel: the number of tokens.
unfoldable pub count_tokens : ℕ → List ℕ → Option ℕ
unfolding strtok_r
count_tokens zero s = none
count_tokens (suc fuel) s = elim (strtok_r s) [
  | none ↦ some 0
  | some t ↦ (do n ← count_tokens fuel t.1; some (n + 1))
]

-- The second loop, where `left` elements of the array are left: the token, or NULL at the end, is
-- written. A write past the array has no result.
unfoldable pub fill_tokens : ℕ → List ℕ → Option (List (Option (List ℕ)))
unfolding strtok_r
fill_tokens zero s = none
fill_tokens (suc left) s = elim (strtok_r s) [
  | none ↦ some (none ∷ [])
  | some t ↦ (do rest ← fill_tokens left t.1; some (some t.0 ∷ rest))
]

-- The array `ta_path`, an exit where strdup or malloc fails, or a fault.
pub data TaPath : Type 0 where
  ta_path : List (Option (List ℕ)) → TaPath
  exits faults : TaPath

abbrev pub filled : Option (List (Option (List ℕ))) → TaPath
filled none = faults
filled (some array) = ta_path array

abbrev pub counted : Bool → List ℕ → Option ℕ → TaPath
counted malloc_ok path none = faults
counted malloc_ok path (some n) = if malloc_ok then filled (fill_tokens (n + 1) path) else exits

-- The string has as many tokens at most as bytes, so its length and one is fuel enough. strcpy puts
-- back the string that strtok_r has cut, so both loops start on `path`.
unfoldable pub set_ta_path : Bool → Bool → List ℕ → TaPath
unfolding count_tokens fill_tokens
set_ta_path strdup_ok malloc_ok path =
    if strdup_ok then counted malloc_ok path (count_tokens (length path + 1) path) else exits
