-- ===== src/Matcher/BoyerMoore/Stop.antt =====
-- Where the inner loop of `boyer_moore_strnstr` stops.
use the_silver_searcher.Base.{
  ℕ, zero, suc, ◌+◌, ◌-◌, ◌≤◌, ◌<◌, ◌≡◌, ◌≢◌, ap, ◌∙◌, Bool, List, at, arith, eq→==, ne→==,
  ℕ_discrete, sym,
}
use the_silver_searcher.Matcher.Occurrence.{fold_case}
use the_silver_searcher.Matcher.BoyerMoore.{match_back}

module _ (s find : List ℕ) (ci : Bool) where
  -- Where the inner loop stops: every byte behind agrees, and the one it stops at does not.
  pub record IsStop (i pos : ℕ) (stop : ℕ × ℕ) : Type 0 where
    pub level : stop.0 + pos ≡ stop.1 + i
    pub inside : stop.0 ≤ i
    pub agrees :
        (t u : ℕ) → stop.0 ≤ t → t < i → t + pos ≡ u + i → fold_case ci (at s u) ≡ at find t
    pub differs : (t u : ℕ) → stop.0 ≡ suc t → stop.1 ≡ suc u → fold_case ci (at s u) ≢ at find t

  pub match_back-IsStop : (i pos : ℕ) → i ≤ pos → IsStop i pos (match_back s find ci i pos)
  unfolding match_back
  match_back-IsStop zero pos h = record {
    level = omega arith;
    inside = omega arith;
    agrees = λ t u le lt. absurd (omega arith);
    differs = λ t u e. absurd (omega arith);
  }
  match_back-IsStop (suc i) pos h =
      let r = match_back-IsStop i (pos - 1) (omega arith) in
      elim (ℕ_discrete (fold_case ci (at s (pos - 1))) (at find i)) [
        | yes e ↦ rw (eq→== _ _ e) (record {
          level = omega (arith, r.level);
          inside = omega (arith, r.inside);
          agrees = λ t u le lt eq. elim (ℕ_discrete t i) [
            | yes t_i ↦
                let u_pos : u ≡ pos - 1 = omega arith in
                ap (λ v. fold_case ci (at s v)) u_pos ∙ e ∙ ap (at find) (sym t_i)
            | no ne ↦ r.agrees t u le (omega arith) (omega arith)
          ];
          differs = r.differs;
        })
        | no ne ↦ rw (ne→== _ _ ne) (record {
          level = omega arith;
          inside = omega arith;
          agrees = λ t u le lt. absurd (omega arith);
          differs = λ t u e e' eq.
              let t_i : i ≡ t = omega arith in
              let u_pos : pos - 1 ≡ u = omega arith in
              ne (ap (λ v. fold_case ci (at s v)) u_pos ∙ eq ∙ ap (at find) (sym t_i));
        })
      ]
