-- ===== src/TaVfs/Buffer.antt =====
-- The write buffer of optee_examples/tee_sqilte/ta/tee_vfs.c: its bounds, and what one round of the
-- loop in demoWrite does to it.
use tee_sqlite.Prelude.{
  ℕ, zero, suc, ◌+◌, ◌≤◌, ◌<◌, ◌≡◌, refl, ap, List, [], ◌∷◌, ◌++◌, arith, length, take, drop,
  length-append, length-take, length-drop,
}
use mathlib.Core.List.{append_assoc}
use tee_sqlite.TaVfs.{DemoFile, bytes_of, pending, buffer_size}
use tee_sqlite.TaVfs.Write.{fill, copy_size}

-- A file with a buffer: all of it is there, and the count is within.
pub record IsBuffered (p : DemoFile) : Type 0 where
  pub whole : length (bytes_of p) ≡ buffer_size
  pub within : p.n_buffer ≤ buffer_size

pub buffer_size-pos : 0 < buffer_size
unfolding buffer_size
buffer_size-pos = omega arith

pub take-append_self : {A : Type 0} (ys zs : List A) → take (length ys) (ys ++ zs) ≡ ys
take-append_self [] zs = refl
take-append_self (y ∷ ys) zs = ap (λ t. y ∷ t) (take-append_self ys zs)

pub take-take_append :
    {A : Type 0} (n k : ℕ) (xs ys zs : List A)
    → n ≤ length xs
    → length ys ≡ k
    → take (n + k) (take n xs ++ (ys ++ zs)) ≡ take n xs ++ ys
take-take_append n k xs ys zs h e =
    rw (← append_assoc (take n xs) ys zs, whole) (take-append_self (take n xs ++ ys) zs)
  where
    whole : n + k ≡ length (take n xs ++ ys)
    whole = omega (arith, length-append (take n xs) ys, length-take n xs)

-- The copy is at most what is left and what has room, and not empty if neither is.
pub copy_size_bounds :
    (p : DemoFile) (n : ℕ)
    → p.n_buffer ≤ buffer_size
    → (copy_size p n ≤ n)
      × (p.n_buffer + copy_size p n ≤ buffer_size)
      × (0 < n → p.n_buffer < buffer_size → 0 < copy_size p n)
unfolding copy_size
copy_size_bounds p n h = ground arith

pub fill-IsBuffered : (p : DemoFile) (z : List ℕ) (i : ℕ) → IsBuffered p → IsBuffered (fill p z i)
unfolding fill
fill-IsBuffered p z i v = record {
  whole = all;
  within = (copy_size_bounds p (length z) v.within).1;
}
  where
    all : length (bytes_of (fill p z i)) ≡ buffer_size
    all =
        let k = copy_size p (length z) in
        omega (
          arith,
          v,
          copy_size_bounds p (length z) v.within,
          length-append (take p.n_buffer (bytes_of p))
              (take k z ++ drop (p.n_buffer + k) (bytes_of p)),
          length-append (take k z) (drop (p.n_buffer + k) (bytes_of p)),
          length-take p.n_buffer (bytes_of p),
          length-take k z,
          length-drop (p.n_buffer + k) (bytes_of p),
        )

pub pending-fill :
    (p : DemoFile) (z : List ℕ) (i : ℕ)
    → IsBuffered p
    → pending (fill p z i) ≡ pending p ++ take (copy_size p (length z)) z
unfolding fill
pending-fill p z i v =
    let k = copy_size p (length z) in
    take-take_append p.n_buffer k (bytes_of p) (take k z) _ (omega (arith, v))
      (omega (arith, length-take k z, copy_size_bounds p (length z) v.within))

pub take-drop_lem : {A : Type 0} (n : ℕ) (xs : List A) → take n xs ++ drop n xs ≡ xs
take-drop_lem zero xs = refl
take-drop_lem (suc n) [] = refl
take-drop_lem (suc n) (x ∷ xs) = ap (λ t. x ∷ t) (take-drop_lem n xs)
