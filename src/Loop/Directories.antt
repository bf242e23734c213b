-- ===== src/Loop/Directories.antt =====
-- The array that set_ta_path of optee_client/tee-supplicant/tee_supplicant.c fills holds the
-- directories that its string names.
use tee_sqlite.Prelude.{
  ℕ, zero, suc, ◌+◌, ◌≤◌, ◌<◌, ◌≡◌, ◌⊎◌, refl, sym, ap, ◌∙◌, ◌==◌, Bool, true, false, ◌&&◌, List,
  [], ◌∷◌, ◌++◌, Option, none, some, map, length, if◌then◌else◌, arith, Bool-cases, inl, inr,
}
use tee_sqlite.Loop.TaPath.{
  colon, skip_colons, token, behind_token, split_token, strtok_r, count_tokens, fill_tokens,
  ta_path, exits, set_ta_path,
}

-- The parts of a string between colons, and of these those that are not empty.
abbrev first_more : ℕ → List (List ℕ) → List (List ℕ)
first_more c [] = []
first_more c (p ∷ ps) = (c ∷ p) ∷ ps

abbrev parts : List ℕ → List (List ℕ)
parts [] = [] ∷ []
parts (c ∷ s) = if c == colon then [] ∷ parts s else first_more c (parts s)

abbrev not_empty : List (List ℕ) → List (List ℕ)
not_empty [] = []
not_empty ([] ∷ ps) = not_empty ps
not_empty ((c ∷ p) ∷ ps) = (c ∷ p) ∷ not_empty ps

abbrev pub directories : List ℕ → List (List ℕ)
directories s = not_empty (parts s)

-- The first part is the token, and the others are those behind it.
parts-token :
    (s : List ℕ)
    → (ps : List (List ℕ)) × (parts s ≡ token s ∷ ps)
      × (not_empty ps ≡ directories (behind_token s))
unfolding token behind_token
parts-token [] = ([], refl, refl)
parts-token (c ∷ s) = elim (Bool-cases (c == colon)) [
  | inl end ↦ (parts s, rw (end) refl, rw (end) refl)
  | inr inside ↦
      let (ps, first, others) = parts-token s in
      (ps, rw (inside) (ap (first_more c) first), rw (inside) others)
]

skip_colons-directories : (s : List ℕ) → directories (skip_colons s) ≡ directories s
unfolding skip_colons
skip_colons-directories [] = refl
skip_colons-directories (c ∷ s) = elim (Bool-cases (c == colon)) [
  | inl skipped ↦ rw (skipped) (skip_colons-directories s)
  | inr kept ↦ let same : skip_colons (c ∷ s) ≡ c ∷ s = ground (arith, kept) in ap directories same
]

length-skip_colons : (s : List ℕ) → length (skip_colons s) ≤ length s
unfolding skip_colons
length-skip_colons [] = omega arith
length-skip_colons (c ∷ s) = ground (arith, length-skip_colons s)

length-behind_token : (s : List ℕ) → length (behind_token s) ≤ length s
unfolding behind_token
length-behind_token [] = omega arith
length-behind_token (c ∷ s) = ground (arith, length-behind_token s)

skip_colons-head : (s r : List ℕ) (c : ℕ) → skip_colons s ≡ c ∷ r → (c == colon) ≡ false
unfolding skip_colons
skip_colons-head [] r c h = absurd (ground arith)
skip_colons-head (d ∷ s) r c h = elim (Bool-cases (d == colon)) [
  | inl skipped ↦ skip_colons-head s r c (ground (arith, skipped))
  | inr kept ↦ ground (arith, kept)
]

token_inside : (c : ℕ) (r : List ℕ) → (c == colon) ≡ false → token (c ∷ r) ≡ c ∷ token r
unfolding token
token_inside c r h = rw (h) refl

behind_inside : (c : ℕ) (r : List ℕ) → (c == colon) ≡ false → behind_token (c ∷ r) ≡ behind_token r
unfolding behind_token
behind_inside c r h = rw (h) refl

-- What strtok_r says of the directories left.
record Next (s : List ℕ) (r : Option (List ℕ × List ℕ)) : Type 0 where
  rest : List ℕ
  first : List ℕ
  run : r ≡ some (first, rest)
  more : directories s ≡ first ∷ directories rest
  shorter : length rest < length s

next_at :
    (s r : List ℕ)
    → skip_colons s ≡ r
    → ((split_token r ≡ none) × (directories s ≡ [])) ⊎ Next s (split_token r)
next_at s [] e = inl (refl, sym (skip_colons-directories s) ∙ ap directories e)
next_at s (c ∷ r) e =
    let inside = skip_colons-head s r c e in
    let (ps, parted, others) = parts-token (c ∷ r) in
    let cut : token (c ∷ r) ≡ c ∷ token r = token_inside c r inside in
    let behind : behind_token (c ∷ r) ≡ behind_token r = behind_inside c r inside in
    inr (record {
      rest = behind_token (c ∷ r);
      first = token (c ∷ r);
      run = refl;
      more =
          sym (skip_colons-directories s)
          ∙ (ap directories e
              ∙ (ap not_empty (parted ∙ ap (λ t. t ∷ ps) cut)
                  ∙ (ap (λ l. (c ∷ token r) ∷ l) others
                      ∙ ap (λ t. t ∷ directories (behind_token (c ∷ r))) (sym cut))));
      shorter =
          omega (arith, ap length behind, length-behind_token r, length-skip_colons s, ap length e);
    })

strtok_r-Next : (s : List ℕ) → ((strtok_r s ≡ none) × (directories s ≡ [])) ⊎ Next s (strtok_r s)
unfolding strtok_r
strtok_r-Next s = next_at s (skip_colons s) refl

count_tokens-length :
    (fuel : ℕ) (s : List ℕ) → length s < fuel → count_tokens fuel s ≡ some (length (directories s))
unfolding count_tokens
count_tokens-length zero s h = elim h [ ]
count_tokens-length (suc fuel) s h = elim (strtok_r-Next s) [
  | inl e ↦ rw (e.0, count_tokens) (ap (λ l. some (length l)) (sym e.1))
  | inr n ↦
      rw (n.run, count_tokens, count_tokens-length fuel n.rest (omega (arith, n.shorter)))
        (ap some (omega (arith, ap length n.more)))
]

fill_tokens-directories :
    (n : ℕ) (s : List ℕ)
    → length (directories s) ≡ n
    → fill_tokens (suc n) s ≡ some (map some (directories s) ++ (none ∷ []))
unfolding fill_tokens
fill_tokens-directories zero s h = elim (strtok_r-Next s) [
  | inl e ↦ rw (e.0, fill_tokens) (ap (λ l. some (map some l ++ (none ∷ []))) (sym e.1))
  | inr n ↦ absurd (omega (arith, ap length n.more))
]
fill_tokens-directories (suc m) s h = elim (strtok_r-Next s) [
  | inl e ↦ absurd (omega (arith, ap length e.1))
  | inr n ↦
      rw (n.run, fill_tokens, fill_tokens-directories m n.rest (omega (arith, ap length n.more)))
        (ap (λ l. some (map some l ++ (none ∷ []))) (sym n.more))
]

-- set_ta_path exits where strdup or malloc fails, and otherwise gives an array of exactly the
-- directories that the string names between colons, in their order and without empty ones, with
-- NULL behind them: it never writes past the array that it allocated.
pub set_ta_path-directories :
    (strdup_ok malloc_ok : Bool) (path : List ℕ)
    → set_ta_path strdup_ok malloc_ok path ≡ (
        if strdup_ok && malloc_ok
        then ta_path (map some (directories path) ++ (none ∷ []))
        else exits)
unfolding set_ta_path
set_ta_path-directories false malloc_ok path = refl
set_ta_path-directories true false path =
    rw (count_tokens-length (length path + 1) path (omega arith)) refl
set_ta_path-directories true true path =
    let n = length (directories path) in
    let next : n + 1 ≡ suc n = omega arith in
    rw
      (
        count_tokens-length (length path + 1) path (omega arith),
        next,
        fill_tokens-directories n path refl,
      )
      refl
