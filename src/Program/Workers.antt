-- ===== src/Program/Workers.antt =====
-- How many workers there are.
use Prim.Native.Nat.{max}
use the_silver_searcher.Base.{
  ℕ, zero, suc, ◌≤◌, Bool, true, false, ltb, if◌then◌else◌, arith, Bool-cases, inl, inr,
}
use the_silver_searcher.Base.Signed.{ℤ, pos, negsuc}
use the_silver_searcher.Program.{at_most_8, decrement, at_least_1, workers_len}

-- How many are asked for, 0 where the number makes no sense.
abbrev asked : ℤ → ℕ
asked (pos n) = n
asked (negsuc n) = 0

at_least_1-le : (k : ℤ) → at_least_1 k ≤ max 1 (asked k)
at_least_1-le (pos n) = ground arith
at_least_1-le (negsuc n) = omega arith

at_most_8-le : (k : ℤ) → asked (at_most_8 k) ≤ 8
at_most_8-le (pos n) = elim (Bool-cases (ltb n 8)) [
  | inl lt ↦ rw lt (ground (arith, lt))
  | inr ge ↦ rw ge (omega arith)
]
at_most_8-le (negsuc n) = omega arith

decrement-le : (k : ℤ) → asked (decrement k) ≤ asked k
decrement-le (pos zero) = omega arith
decrement-le (pos (suc n)) = omega arith
decrement-le (negsuc n) = omega arith

by_kind-le :
    (num_cores : ℤ) (literal : Bool)
    → asked (if literal then decrement (at_most_8 num_cores) else at_most_8 num_cores) ≤ 8
by_kind-le num_cores true =
    omega (arith, decrement-le (at_most_8 num_cores), at_most_8-le num_cores)
by_kind-le num_cores false = at_most_8-le num_cores

at_least_1-pos : (k : ℤ) → 1 ≤ at_least_1 k
at_least_1-pos (pos n) = ground arith
at_least_1-pos (negsuc n) = omega arith

-- There are at least one worker and as many as are asked for, and at most eight where no more are asked for.
workers_len-InRange :
    (num_cores : ℤ) (literal : Bool) (workers : ℤ)
    → (1 ≤ workers_len num_cores literal workers)
      × (asked workers ≤ workers_len num_cores literal workers)
      × (workers_len num_cores literal workers ≤ max 8 (asked workers))
unfolding workers_len
workers_len-InRange num_cores literal (pos zero) =
    let k = if literal then decrement (at_most_8 num_cores) else at_most_8 num_cores in
    (at_least_1-pos k, omega arith, omega (arith, at_least_1-le k, by_kind-le num_cores literal))
workers_len-InRange num_cores literal (pos (suc n)) = (ground arith, ground arith, ground arith)
workers_len-InRange num_cores literal (negsuc n) = (omega arith, omega arith, omega arith)
