-- ===== src/Matcher/BoyerMoore/Move.antt =====
-- How far `boyer_moore_strnstr` moves on after a mismatch: past no occurrence.
use the_silver_searcher.Base.{
  ℕ, ◌+◌, ◌-◌, ◌≤◌, ◌<◌, ◌≡◌, ◌≢◌, ◌∙◌, Bool, List, at, arith, dec_lt, ℕ_discrete, sym,
}
use the_silver_searcher.Matcher.Occurrence.{fold_case, Occurs}
use the_silver_searcher.Matcher.AlphaSkip.{IsAlpha}
use the_silver_searcher.Matcher.FindSkip.{IsShift, IsSkip}
use the_silver_searcher.Matcher.BoyerMoore.{shift_pos}
use the_silver_searcher.Matcher.BoyerMoore.Stop.{IsStop}

module _ (s find : List ℕ) (s_len f_len : ℕ) (ci : Bool) (alpha_skip find_skip : ℕ → ℕ) (pos : ℕ)
    (stop : ℕ × ℕ) (halt : IsStop s find ci f_len (pos + 1) stop) (inner : stop.0 ≢ 0)
    (fits : f_len ≤ pos + 1) where
  -- An occurrence `d` bytes further on agrees with what the inner loop has seen.
  occurrence-IsShift :
      (k d : ℕ)
      → k + f_len ≡ pos + 1 + d
      → Occurs ci find f_len s k
      → IsShift find f_len (stop.0 - 1) d
  occurrence-IsShift k d e occ = record {
    behind = λ t lt le.
        sym (occ t (omega arith))
        ∙ halt.agrees (t + d) (k + t) (omega arith) le (omega (arith, halt.level));
    differs = λ t q eq.
        halt.differs (stop.0 - 1) (k + t) (omega arith) (omega (arith, halt.level))
          (occ t (omega (arith, halt.inside)) ∙ eq);
  }

  module _ (alpha : IsAlpha ci find f_len (f_len - 1) alpha_skip)
      (skips : (j : ℕ) → j < f_len → IsSkip find f_len j (find_skip j)) where
    find_skip-le :
        (k d : ℕ)
        → k + f_len ≡ pos + 1 + d
        → 0 < d
        → Occurs ci find f_len s k
        → find_skip (stop.0 - 1) ≤ d + (f_len - stop.0)
    find_skip-le k d e lt occ = omega (
      arith,
      (skips (stop.0 - 1) (omega (arith, halt.inside))).safe d lt (occurrence-IsShift k d e occ),
    )

    alpha_skip-le :
        (k d : ℕ)
        → k + f_len ≡ pos + 1 + d
        → 0 < d
        → Occurs ci find f_len s k
        → alpha_skip (at s (stop.1 - 1)) ≤ d + (f_len - stop.0)
    alpha_skip-le k d e lt occ = elim (dec_lt d stop.0) [
      | no far ↦ omega (arith, alpha.bounded (at s (stop.1 - 1)))
      | yes near ↦
          let place : k + (stop.0 - 1 - d) ≡ stop.1 - 1 = omega (arith, halt.level, halt.inside) in
          let same : fold_case ci (at s (stop.1 - 1)) ≡ at find (stop.0 - 1 - d) =
            rw (← place) (occ (stop.0 - 1 - d) (omega (arith, halt.inside))) in
          omega (
            arith,
            halt.inside,
            alpha.safe (at s (stop.1 - 1)) (stop.0 - 1 - d) (omega (arith, halt.inside)) same,
          )
    ]

    not_here : (k : ℕ) → k + f_len ≡ pos + 1 → ¬ Occurs ci find f_len s k
    not_here k e occ =
        halt.differs (stop.0 - 1) (k + (stop.0 - 1)) (omega arith) (omega (arith, halt.level))
          (occ (stop.0 - 1) (omega (arith, halt.inside)))

    -- The move skips no occurrence.
    pub shift_pos_safe :
        (k : ℕ)
        → pos < k + f_len
        → k + f_len ≤ shift_pos s alpha_skip find_skip stop
        → ¬ Occurs ci find f_len s k
    unfolding shift_pos
    shift_pos_safe k lt le occ = elim (ℕ_discrete (k + f_len) (pos + 1)) [
      | yes e ↦ not_here k e occ
      | no ne ↦ ground (
        arith,
        halt.level,
        halt.inside,
        alpha_skip-le k (k + f_len - (pos + 1)) (omega arith) (omega arith) occ,
        find_skip-le k (k + f_len - (pos + 1)) (omega arith) (omega arith) occ,
      )
    ]

    pub lt-shift_pos : pos < shift_pos s alpha_skip find_skip stop
    unfolding shift_pos
    lt-shift_pos =
        ground
          (arith, halt.level, halt.inside, (skips (stop.0 - 1) (omega (arith, halt.inside))).moves)
