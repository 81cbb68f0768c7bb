-- ===== src/Matcher/FindSkip.antt =====
-- The table of `generate_find_skip` never skips over an occurrence.
mod Overlap
pub use Overlap.{IsPeriod, IsShift, IsSkip}
use Overlap.{is_prefix-true, suffix_len-le, suffix_len-IsShift, last_unmoved, differs_at}
use the_silver_searcher.Base.{
  ℕ, zero, suc, ◌+◌, ◌-◌, ◌≤◌, ◌<◌, ◌≡◌, ◌≢◌, refl, ap, ◌∙◌, ◌⊎◌, inl, inr, Bool, true, false, not,
  List, at, arith, dec_le,
}
use mathlib.Core.Path.{subst}
use the_silver_searcher.Matcher.Occurrence.{fold_case, IsFolded}
use the_silver_searcher.Matcher.Tables.{
  same_char, prefix_loop, is_prefix, suffix_loop, suffix_len, prefix_pass, suffix_step, suffix_pass,
  generate_find_skip,
}

module _ (ci : Bool) (find : List ℕ) (f_len : ℕ) (folded : IsFolded ci find f_len) where
  -- The entries at or above `i` after the first pass has come down to `i`.
  record IsPrefixTable (i last_prefix : ℕ) (sl : ℕ → ℕ) : Type 0 where
    above : i ≤ last_prefix
    least : (d : ℕ) → i < d → d ≤ f_len → IsPeriod find f_len d → last_prefix ≤ d
    far : (j : ℕ) → i ≤ j → j < f_len → f_len ≤ sl j
    safe :
        (j d : ℕ) → i ≤ j → j < d → d ≤ f_len → IsPeriod find f_len d → sl j ≤ d + (f_len - 1 - j)

  prefix_pass-IsPrefixTable :
      (i last_prefix : ℕ) (sl : ℕ → ℕ)
      → i ≤ f_len
      → IsPrefixTable i last_prefix sl
      → (p : ℕ) × IsPrefixTable 0 p (prefix_pass find f_len (not ci) i last_prefix sl)
  unfolding prefix_pass
  prefix_pass-IsPrefixTable zero last_prefix sl h inv = (last_prefix, inv)
  prefix_pass-IsPrefixTable (suc i) last_prefix sl h inv =
      prefix_pass-IsPrefixTable i _ _ (omega arith) (record {
        above = ground (arith, inv.above);
        least = λ d lt le p. ground (arith, is_prefix-true ci find f_len folded d, inv.least d);
        far = λ j le lt. ground (arith, inv.far j, inv.above);
        safe = λ j d ij jd le p.
            ground (arith, is_prefix-true ci find f_len folded d, inv.least d, inv.safe j d);
      })

  -- The entries after the second pass has seen the positions before `i`.
  record IsSuffixTable (i : ℕ) (sl : ℕ → ℕ) : Type 0 where
    moves : (j : ℕ) → j < f_len → f_len - j ≤ sl j
    outer :
        (j d : ℕ)
        → j < f_len
        → j < d
        → d ≤ f_len
        → IsPeriod find f_len d
        → sl j ≤ d + (f_len - 1 - j)
    inner :
        (j d : ℕ)
        → j < f_len
        → 0 < d
        → d ≤ j
        → f_len - 1 - d < i
        → IsShift find f_len j d
        → sl j ≤ d + (f_len - 1 - j)

  suffix_step-IsSuffixTable :
      (i : ℕ) (sl : ℕ → ℕ)
      → i < f_len
      → IsSuffixTable i sl
      → IsSuffixTable (i + 1) (suffix_step find f_len (not ci) i sl)
  unfolding suffix_step
  suffix_step-IsSuffixTable i sl h inv = record {
    moves = λ j lt. ground (
      arith,
      inv.moves j,
      suffix_len-le ci find f_len folded i,
      last_unmoved ci find f_len folded i,
    );
    outer = λ j d lt jd le p. ground (arith, inv.outer j d, suffix_len-le ci find f_len folded i);
    inner = λ j d lt pos le seen shift. ground (
      arith,
      inv.inner j d,
      suffix_len-le ci find f_len folded i,
      suffix_len-IsShift ci find f_len folded j d,
      differs_at ci find f_len folded j d i,
    );
  }

  suffix_pass-IsSuffixTable :
      (rounds i : ℕ) (sl : ℕ → ℕ)
      → i + rounds ≡ f_len
      → IsSuffixTable i sl
      → IsSuffixTable f_len (suffix_pass find f_len (not ci) rounds i sl)
  unfolding suffix_pass
  suffix_pass-IsSuffixTable zero i sl h inv =
      let e : i ≡ f_len = omega arith in subst (λ k. IsSuffixTable k sl) e inv
  suffix_pass-IsSuffixTable (suc rounds) i sl h inv =
      suffix_pass-IsSuffixTable rounds (i + 1) _ (omega arith)
        (suffix_step-IsSuffixTable i sl (omega arith) inv)

  skip_safe :
      {sl : ℕ → ℕ}
      → IsSuffixTable f_len sl
      → (j d : ℕ) → j < f_len
      → 0 < d
      → IsShift find f_len j d
      → sl j ≤ d + (f_len - 1 - j)
  skip_safe {sl} last j d h pos shift = elim (dec_le d j) [
    | yes le ↦ last.inner j d h pos le (omega arith) shift
    | no gt ↦ elim (dec_le d f_len) [
      | yes le ↦ last.outer j d h (omega arith) le (λ k lt. shift.behind k (omega arith) lt)
      | no far ↦ omega (arith, last.outer j f_len h h (omega arith) (λ k lt. absurd (omega arith)))
    ]
  ]

  -- Every entry of the finished table is a safe skip, whatever the memory held before.
  pub generate_find_skip-IsSkip :
      (fresh : ℕ → ℕ) (j : ℕ)
      → j < f_len
      → IsSkip find f_len j (generate_find_skip find f_len (not ci) fresh j)
  unfolding generate_find_skip
  generate_find_skip-IsSkip fresh j h =
      let (p, first) = prefix_pass-IsPrefixTable f_len f_len fresh (omega arith) (record {
        above = omega arith;
        least = λ d lt le q. omega arith;
        far = λ k le lt. absurd (omega arith);
        safe = λ k d le lt hd. absurd (omega arith);
      }) in
      let sl = prefix_pass find f_len (not ci) f_len f_len fresh in
      let last : IsSuffixTable f_len (suffix_pass find f_len (not ci) f_len 0 sl) =
        suffix_pass-IsSuffixTable f_len 0 sl (omega arith) (record {
          moves = λ k lt. omega (arith, first.far k (omega arith) lt);
          outer = λ k d lt kd le q. first.safe k d (omega arith) kd le q;
          inner = λ k d lt pos le seen. absurd (omega arith);
        }) in
      record { moves = last.moves j h; safe = λ d pos shift. skip_safe last j d h pos shift }
