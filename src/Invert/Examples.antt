-- ===== src/Invert/Examples.antt =====
-- Runs of the inversion, and its theorems at an input.
use the_silver_searcher.Base.{
  ℕ, ◌≤◌, ◌<◌, ◌≡◌, refl, List, [], ◌∷◌, Run, done, out_of_fuel, Returns, arith,
}
use the_silver_searcher.Search.{Match}
use the_silver_searcher.Invert.{at_match, at_newline, round, invert_loop, invert_matches}
use the_silver_searcher.Invert.Apart.{Apart, InOrder, invert_matches-Apart}
use the_silver_searcher.Invert.Hang.{invert_matches-hangs}

-- "a\nb\nc\n"
abbrev three_lines : List ℕ
three_lines = b'a' ∷ b'\n' ∷ b'b' ∷ b'\n' ∷ b'c' ∷ b'\n' ∷ []

-- The "b".
abbrev second_line : ℕ → Match
second_line j = record { start = 2; end = 3 }

abbrev entry : Run (ℕ × (ℕ → Match)) → ℕ → ℕ × ℕ × ℕ
entry out_of_fuel k = (0, 0, 0)
entry (done r) k = (r.0, (r.1 k).start, (r.1 k).end)

-- The first line and the last one are left.
invert_runs_first : entry (invert_matches three_lines 6 7 second_line 1) 0 ≡ (2, 0, 1)
unfolding invert_matches invert_loop round at_match at_newline
invert_runs_first = refl

invert_runs_last : entry (invert_matches three_lines 6 7 second_line 1) 1 ≡ (2, 4, 5)
unfolding invert_matches invert_loop round at_match at_newline
invert_runs_last = refl

second_line-InOrder : InOrder second_line 1 6
second_line-InOrder = record {
  filled = λ j lt. omega arith;
  order = λ j k lt below. absurd (omega arith);
  inside = λ j lt. omega arith;
}

invert_matches-Apart_example :
    Returns
      (invert_matches three_lines 6 7 second_line 1)
      (λ r. (r.0 ≤ 2) × ((k j : ℕ) → k < r.0 → j < 1 → Apart (r.1 k) (second_line j)))
invert_matches-Apart_example =
    invert_matches-Apart three_lines second_line 1 6 (omega arith) second_line-InOrder

invert_matches-hangs_example :
    invert_matches three_lines 6 1000 (λ j. record { start = 0; end = 0 }) 1 ≡ out_of_fuel
invert_matches-hangs_example =
    invert_matches-hangs three_lines 6 1000 (λ j. record { start = 0; end = 0 }) (omega arith) refl
      refl
