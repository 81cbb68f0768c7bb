-- ===== src/Matcher/AlphaSkip.antt =====
-- The table of `generate_alpha_skip` never skips over an occurrence.
use the_silver_searcher.Base.{
  ℕ, zero, suc, ◌+◌, ◌-◌, ◌≤◌, ◌<◌, ◌≡◌, Bool, true, false, not, List, at, arith,
}
use the_silver_searcher.Base.Chars.{tolower_cases}
use the_silver_searcher.Matcher.Occurrence.{fold_case, IsFolded}
use the_silver_searcher.Matcher.Tables.{alpha_step, alpha_loop, generate_alpha_skip}

-- The table after the query's bytes before `i`: each entry is a skip that no earlier copy of the
-- byte forbids.
pub record IsAlpha (ci : Bool) (find : List ℕ) (f_len i : ℕ) (skip : ℕ → ℕ) : Type 0 where
  pub moves : (c : ℕ) → 0 < skip c
  pub bounded : (c : ℕ) → skip c ≤ f_len
  pub safe : (c k : ℕ) → k < i → fold_case ci c ≡ at find k → skip c ≤ f_len - 1 - k

alpha_step-IsAlpha :
    (ci : Bool) (find : List ℕ) (f_len : ℕ)
    → IsFolded ci find f_len
    → (i : ℕ) (skip : ℕ → ℕ) → i < f_len - 1
    → IsAlpha ci find f_len i skip
    → IsAlpha ci find f_len (i + 1) (alpha_step find (f_len - 1) (not ci) i skip)
unfolding alpha_step
alpha_step-IsAlpha true find f_len folded i skip h inv = record {
  moves = λ c. ground (arith, inv.moves c);
  bounded = λ c. ground (arith, inv.bounded c);
  safe = λ c k lt e. ground (arith, inv.safe c k, tolower_cases c, folded i);
}
alpha_step-IsAlpha false find f_len folded i skip h inv = record {
  moves = λ c. ground (arith, inv.moves c);
  bounded = λ c. ground (arith, inv.bounded c);
  safe = λ c k lt e. ground (arith, inv.safe c k);
}

module _ (ci : Bool) (find : List ℕ) (f_len : ℕ) (folded : IsFolded ci find f_len) where
  alpha_loop-IsAlpha :
      (rounds i : ℕ) (skip : ℕ → ℕ)
      → i + rounds ≡ f_len - 1
      → IsAlpha ci find f_len i skip
      → IsAlpha ci find f_len (f_len - 1) (alpha_loop find (f_len - 1) (not ci) rounds i skip)
  unfolding alpha_loop
  alpha_loop-IsAlpha zero i skip h inv = record {
    moves = inv.moves;
    bounded = inv.bounded;
    safe = λ c k lt. inv.safe c k (omega arith);
  }
  alpha_loop-IsAlpha (suc rounds) i skip h inv =
      alpha_loop-IsAlpha rounds (i + 1) (alpha_step find (f_len - 1) (not ci) i skip) (omega arith)
        (alpha_step-IsAlpha ci find f_len folded i skip (omega arith) inv)

  pub generate_alpha_skip-IsAlpha :
      0 < f_len → IsAlpha ci find f_len (f_len - 1) (generate_alpha_skip find f_len (not ci))
  unfolding generate_alpha_skip
  generate_alpha_skip-IsAlpha h =
      alpha_loop-IsAlpha (f_len - 1) 0 (λ _. f_len) (omega arith)
        (record {
          moves = λ c. h;
          bounded = λ c. omega arith;
          safe = λ c k lt. absurd (omega arith);
        })
