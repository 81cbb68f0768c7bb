-- ===== src/Matcher/HashTable/Filled.antt =====
-- How many cells are taken; a table with a free cell takes one more entry.
use the_silver_searcher.Base.{
  ℕ, zero, suc, ◌+◌, ◌%◌, ◌≤◌, ◌<◌, ◌≡◌, refl, update, Returns, arith, ◌==◌, if◌then◌else◌,
  ℕ_discrete,
}
use the_silver_searcher.Matcher.HashTable.{put_entry}
use the_silver_searcher.Matcher.HashTable.Probe.{walk_reaches, IsFree, free_cell-IsFree}

-- The taken cells among the first `n`.
pub filled : (table : ℕ → ℕ) (n : ℕ) → ℕ
filled table zero = 0
filled table (suc n) = filled table n + (if table n == 0 then 0 else 1)

filled-update_outside :
    (table : ℕ → ℕ) (n cell v : ℕ) → n ≤ cell → filled (update table cell v) n ≡ filled table n
unfolding filled
filled-update_outside table zero cell v h = refl
filled-update_outside table (suc n) cell v h = ground (arith, filled-update_outside table n cell v)

pub filled-update :
    (table : ℕ → ℕ) (n cell v : ℕ) → filled (update table cell v) n ≤ filled table n + 1
unfolding filled
filled-update table zero cell v = omega arith
filled-update table (suc n) cell v = elim (ℕ_discrete cell n) [
  | yes here ↦ ground (arith, filled-update_outside table n cell v)
  | no else_where ↦ ground (arith, filled-update table n cell v)
]

pub filled_nothing : (n : ℕ) → filled (λ h. 0) n ≡ 0
unfolding filled
filled_nothing zero = refl
filled_nothing (suc n) = omega (arith, filled_nothing n)

pub some_free : (table : ℕ → ℕ) (n : ℕ) → filled table n < n → (j : ℕ) × (j < n) × (table j ≡ 0)
unfolding filled
some_free table zero h = absurd (omega arith)
some_free table (suc n) h = elim (ℕ_discrete (table n) 0) [
  | yes free ↦ (n, omega arith, free)
  | no full ↦ let (j, lt, z) = some_free table n (ground arith) in (j, omega arith, z)
]

-- The entry is written to the first free cell of the probe from `h`.
pub put_entry-IsFree :
    (size : ℕ) (table : ℕ → ℕ) (h entry : ℕ)
    → h < size
    → filled table size < size
    → Returns
        (put_entry size table h entry)
        (λ t. (cell : ℕ) × IsFree size table h cell × (t ≡ update table cell (entry % 256)))
unfolding put_entry
put_entry-IsFree size table h entry lt room =
    let (j, ltj, z) = some_free table size room in
    let (n, ltn, e) = walk_reaches size h j lt ltj in
    let (cell, e', free) = free_cell-IsFree size table size n h ltn (rw e z) in
    rw e' (_, refl, (cell, free, refl))
