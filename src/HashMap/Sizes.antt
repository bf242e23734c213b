-- ===== src/HashMap/Sizes.antt =====
-- The sizes of optee_examples/tee_sqilte/ta/hashmap.c.
use tee_sqlite.Prelude.{ℕ, ◌^◌, ◌<◌, arith, List, [], ◌∷◌}
use tee_sqlite.HashMap.Table.{next_size, first_larger, sizes}

first_larger_gt : (size : ℕ) (ns : List ℕ) → 0 < size → size < 2 ^ 31 → size < first_larger size ns
unfolding first_larger
first_larger_gt size [] pos small = omega arith
first_larger_gt size (n ∷ ns) pos small = ground (arith, first_larger_gt size ns pos small)

-- next_size is larger than a size that is neither 0 nor 2 ^ 31 or more: doubling does not wrap round.
pub next_size_gt : (size : ℕ) → 0 < size → size < 2 ^ 31 → size < next_size size
unfolding next_size
next_size_gt size pos small = first_larger_gt size sizes pos small
