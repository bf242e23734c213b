-- ===== src/Codec/Bytes.antt =====
-- Parts of a page that memcpy and CodecAES read and replace in optee_examples/tee_sqilte/ta/codec.c.
use tee_sqlite.Prelude.{
  ℕ, zero, suc, ◌≡◌, refl, sym, ap, ◌∙◌, true, List, [], ◌∷◌, ◌++◌, take, drop, length,
  length-append, arith,
}
use tee_sqlite.Codec.{slice, put}
use tee_sqlite.Codec.Pages.{expose_header, same_bytes}

take-append : (xs ys : List ℕ) → take (length xs) (xs ++ ys) ≡ xs
take-append [] ys = refl
take-append (x ∷ xs) ys = ap (λ t. x ∷ t) (take-append xs ys)

drop-append : (xs ys : List ℕ) → drop (length xs) (xs ++ ys) ≡ ys
drop-append [] ys = refl
drop-append (x ∷ xs) ys = drop-append xs ys

pub take_self : (xs : List ℕ) → take (length xs) xs ≡ xs
take_self [] = refl
take_self (x ∷ xs) = ap (λ t. x ∷ t) (take_self xs)

drop_self : (xs : List ℕ) → drop (length xs) xs ≡ []
drop_self [] = refl
drop_self (x ∷ xs) = drop_self xs

pub append_nil : (xs : List ℕ) → xs ++ [] ≡ xs
append_nil [] = refl
append_nil (x ∷ xs) = ap (λ t. x ∷ t) (append_nil xs)

pub append_assoc : (xs ys zs : List ℕ) → (xs ++ ys) ++ zs ≡ xs ++ (ys ++ zs)
append_assoc [] ys zs = refl
append_assoc (x ∷ xs) ys zs = ap (λ t. x ∷ t) (append_assoc xs ys zs)

pub slice-append :
    (xs ys zs : List ℕ) {m n : ℕ}
    → length xs ≡ m
    → length ys ≡ n
    → slice m n (xs ++ (ys ++ zs)) ≡ ys
unfolding slice
slice-append xs ys zs hm hn = rw (← hm, ← hn, drop-append xs (ys ++ zs), take-append ys zs) refl

pub slice-append_rest :
    (xs ys : List ℕ) {m n : ℕ} → length xs ≡ m → length ys ≡ n → slice m n (xs ++ ys) ≡ ys
unfolding slice
slice-append_rest xs ys hm hn = rw (← hm, ← hn, drop-append xs ys, take_self ys) refl

pub put-append :
    (xs ys ys' zs : List ℕ) {m : ℕ}
    → length xs ≡ m
    → length ys' ≡ length ys
    → put m ys' (xs ++ (ys ++ zs)) ≡ xs ++ (ys' ++ zs)
unfolding put
put-append xs ys ys' zs hm hy =
    rw
      (
        ← hm,
        hy,
        take-append xs (ys ++ zs),
        ← length-append xs ys,
        ← append_assoc xs ys zs,
        drop-append (xs ++ ys) zs,
      )
      refl

pub put-append_rest :
    (xs ys ys' : List ℕ) {m : ℕ}
    → length xs ≡ m
    → length ys' ≡ length ys
    → put m ys' (xs ++ ys) ≡ xs ++ ys'
put-append_rest xs ys ys' {m} hm hy =
    ap (λ l. put m ys' (xs ++ l)) (sym (append_nil ys))
    ∙ (put-append xs ys ys' [] hm hy ∙ ap (λ l. xs ++ l) (append_nil ys'))

pub same_bytes_self : (xs : List ℕ) → same_bytes xs xs ≡ true
unfolding same_bytes
same_bytes_self [] = refl
same_bytes_self (x ∷ xs) = ground (arith, same_bytes_self xs)

-- The header in the clear, over an encrypted page of which it took the place.
pub expose_header-append :
    (a b u h v : List ℕ)
    → length a ≡ 8
    → length b ≡ 8
    → length u ≡ 8
    → length h ≡ 8
    → expose_header h (a ++ (b ++ (u ++ v))) ≡ a ++ (u ++ (h ++ v))
unfolding expose_header
expose_header-append a b u h v ha hb hu hh =
    let front : length (a ++ b) ≡ 16 = omega (arith, length-append a b, ha, hb) in
    let shifted : length (a ++ u) ≡ 16 = omega (arith, length-append a u, ha, hu) in
    rw
      (
        ← append_assoc a b (u ++ v),
        slice-append (a ++ b) u v front hu,
        append_assoc a b (u ++ v),
        put-append a b u (u ++ v) ha (hu ∙ sym hb),
        ← append_assoc a u (u ++ v),
        put-append (a ++ u) u h v shifted (hh ∙ sym hu),
        append_assoc a u (h ++ v),
      )
      refl

pub take-drop : (n : ℕ) (xs : List ℕ) → take n xs ++ drop n xs ≡ xs
take-drop zero xs = refl
take-drop (suc n) [] = refl
take-drop (suc n) (x ∷ xs) = ap (λ t. x ∷ t) (take-drop n xs)

-- In a page with the header in the clear: the header, and the page with the bytes under it put back.
pub slice-clear :
    (a u h v : List ℕ)
    → length a ≡ 8
    → length u ≡ 8
    → length h ≡ 8
    → slice 16 8 (a ++ (u ++ (h ++ v))) ≡ h
slice-clear a u h v ha hu hh =
    rw (← append_assoc a u (h ++ v))
      (slice-append (a ++ u) h v (omega (arith, length-append a u, ha, hu)) hh)

pub put-slice_clear :
    (a u h v : List ℕ)
    → length a ≡ 8
    → length u ≡ 8
    → length h ≡ 8
    → put 16 (slice 8 8 (a ++ (u ++ (h ++ v)))) (a ++ (u ++ (h ++ v))) ≡ (a ++ u) ++ (u ++ v)
put-slice_clear a u h v ha hu hh =
    rw (slice-append a u (h ++ v) ha hu, ← append_assoc a u (h ++ v))
      (put-append (a ++ u) h u v (omega (arith, length-append a u, ha, hu)) (hu ∙ sym hh))
