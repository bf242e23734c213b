-- ===== src/Codec/Written.antt =====
-- The pages that sqlite3_rekey_v2 of optee_examples/tee_sqilte/ta/codecext.c writes anew.
use tee_sqlite.Prelude.{
  ℕ, zero, suc, ◌+◌, ◌≡◌, ◌==◌, ◌&&◌, not, leb, ltb, Bool, true, false, List, [], ◌∷◌,
  if◌then◌else◌, arith, Bool-cases, inl, inr,
}
use tee_sqlite.Codec.Rewrite.{Answers, rewrite_pages, rewrite, skipped_page}

-- Whether a page is among those.
abbrev has : ℕ → List ℕ → Bool
has p [] = false
has p (n ∷ ns) = if p == n then true else has p ns

rewrite_pages_all :
    (a : Answers) (skip n left p : ℕ)
    → (rewrite_pages a skip n left).0 ≡ 0
    → has p (rewrite_pages a skip n left).1 ≡ (leb n p && ltb p (n + left) && not (p == skip))
unfolding rewrite_pages
rewrite_pages_all a skip n zero p h = ground arith
rewrite_pages_all a skip n (suc left) p h = elim (Bool-cases (n == skip)) [
  | inl skipped ↦ ground (arith, rewrite_pages_all a skip (n + 1) left p)
  | inr taken ↦ elim (Bool-cases (a.page_get n == 0)) [
    | inr failed ↦ absurd (ground arith)
    | inl got ↦ elim (Bool-cases (a.page_write n == 0)) [
      | inr failed ↦ absurd (ground arith)
      | inl written ↦ ground (arith, rewrite_pages_all a skip (n + 1) left p)
    ]
  ]
]

-- Where the transaction of sqlite3_rekey_v2 succeeds, each page of the database was written, except
-- the one that SQLite keeps for locks, and no other.
rewrite_lem :
    (pending_byte : ℕ) (a : Answers) (p : ℕ)
    → (rewrite pending_byte a).0 ≡ 0
    → has p (rewrite pending_byte a).1
      ≡ (leb 1 p && leb p a.page_count && not (p == skipped_page pending_byte a.page_size))
unfolding rewrite
rewrite_lem pending_byte a p h = elim (Bool-cases (a.begin_trans == 0)) [
  | inr failed ↦ absurd (ground arith)
  | inl begun ↦
      let skip = skipped_page pending_byte a.page_size in
      let done : (rewrite_pages a skip 1 a.page_count).0 ≡ 0 = ground arith in
      rw (begun, if◌then◌else◌) (ground (arith, rewrite_pages_all a skip 1 a.page_count p done))
]
