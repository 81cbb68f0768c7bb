-- ===== src/Matcher/BoyerMoore/First.antt =====
-- `boyer_moore_strnstr` returns the first occurrence.
use the_silver_searcher.Base.{
  ℕ, zero, suc, ◌+◌, ◌-◌, ◌≤◌, ◌<◌, refl, Bool, not, List, arith, none, some, Returns, dec_le,
  dec_lt, lt→ltb, not_lt→ltb, eq→==, ne→==, ℕ_discrete,
}
use the_silver_searcher.Matcher.Occurrence.{IsFolded, Occurs, IsFirst}
use the_silver_searcher.Matcher.Tables.{generate_alpha_skip, generate_find_skip}
use the_silver_searcher.Matcher.AlphaSkip.{IsAlpha, generate_alpha_skip-IsAlpha}
use the_silver_searcher.Matcher.FindSkip.{IsSkip, generate_find_skip-IsSkip}
use the_silver_searcher.Matcher.BoyerMoore.{match_back, shift_pos, search_loop, boyer_moore_strnstr}
use the_silver_searcher.Matcher.BoyerMoore.Stop.{IsStop, match_back-IsStop}
use the_silver_searcher.Matcher.BoyerMoore.Move.{shift_pos_safe, lt-shift_pos}

module _ (s find : List ℕ) (s_len f_len : ℕ) (ci : Bool) (alpha_skip find_skip : ℕ → ℕ)
    (alpha : IsAlpha ci find f_len (f_len - 1) alpha_skip)
    (skips : (j : ℕ) → j < f_len → IsSkip find f_len j (find_skip j)) where
  search_loop-IsFirst :
      (fuel pos : ℕ)
      → s_len - pos < fuel
      → f_len ≤ pos + 1
      → ((k : ℕ) → k + f_len ≤ pos → ¬ Occurs ci find f_len s k)
      → Returns
          (search_loop s find s_len f_len alpha_skip find_skip ci fuel pos)
          (IsFirst ci find f_len s s_len)
  unfolding search_loop
  search_loop-IsFirst zero pos m fits before = absurd (omega arith)
  search_loop-IsFirst (suc fuel) pos m fits before =
      let stop = match_back s find ci f_len (pos + 1) in
      let halt : IsStop s find ci f_len (pos + 1) stop =
        match_back-IsStop s find ci f_len (pos + 1) fits in
      elim (dec_lt pos s_len) [
        | no over ↦ rw (not_lt→ltb _ _ over) (none, refl, λ j le. before j (omega arith))
        | yes lt ↦ rw (lt→ltb _ _ lt) (elim (ℕ_discrete stop.0 0) [
          | yes found ↦ rw (eq→== _ _ found) (
            some stop.1,
            refl,
            (
              omega (arith, halt.level),
              (λ t le. halt.agrees t (stop.1 + t) (omega arith) le (omega (arith, halt.level))),
              (λ j le. before j (omega (arith, halt.level))),
            ),
          )
          | no inner ↦ rw (ne→== _ _ inner) (
              let next =
                lt-shift_pos s find s_len f_len ci alpha_skip find_skip pos stop halt inner fits
                  alpha skips in
              search_loop-IsFirst fuel (shift_pos s alpha_skip find_skip stop) (omega (arith, next))
                (omega (arith, next))
                (λ k le. elim (dec_le (k + f_len) pos) [
                  | yes old ↦ before k old
                  | no new ↦
                      shift_pos_safe s find s_len f_len ci alpha_skip find_skip pos stop halt inner
                        fits alpha skips k (omega arith) le
                ]))
        ])
      ]

-- With the tables that the program generates, the search returns the first occurrence of the query
-- in the text, and NULL if there is none.
pub boyer_moore_strnstr-IsFirst :
    (s find : List ℕ) (s_len f_len : ℕ) (ci : Bool) (fresh : ℕ → ℕ)
    → 0 < f_len
    → IsFolded ci find f_len
    → Returns
        (boyer_moore_strnstr s find s_len f_len
          (generate_alpha_skip find f_len (not ci))
          (generate_find_skip find f_len (not ci) fresh)
          ci)
        (IsFirst ci find f_len s s_len)
unfolding boyer_moore_strnstr
boyer_moore_strnstr-IsFirst s find s_len f_len ci fresh h folded =
    search_loop-IsFirst s find s_len f_len ci (generate_alpha_skip find f_len (not ci))
      (generate_find_skip find f_len (not ci) fresh)
      (generate_alpha_skip-IsAlpha ci find f_len folded h)
      (generate_find_skip-IsSkip ci find f_len folded fresh) (s_len + 1) (f_len - 1) (omega arith)
      (omega arith) (λ k le. absurd (omega arith))
