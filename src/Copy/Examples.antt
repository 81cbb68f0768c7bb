-- ===== src/Copy/Examples.antt =====
-- Runs of the copying of a string, and its theorem at an input.
use the_silver_searcher.Base.{ℕ, zero, suc, ◌<◌, ◌≡◌, ◌≢◌, refl, List, [], ◌∷◌, at, arith}
use the_silver_searcher.Copy.{copy_loop, skip_loop, strlcpy}
use the_silver_searcher.Copy.Cut.{IsCut, strlcpy-IsCut}

abbrev abc : List ℕ
abc = b'a' ∷ b'b' ∷ b'c' ∷ []

abbrev noise : ℕ → ℕ
noise i = 7

strlcpy_length : (strlcpy noise abc 3 2).1 ≡ 3
unfolding strlcpy copy_loop skip_loop
strlcpy_length = refl

strlcpy_nul : (strlcpy noise abc 3 2).0 1 ≡ 0
unfolding strlcpy copy_loop skip_loop
strlcpy_nul = refl

abc-inner : (i : ℕ) → i < 3 → at abc i ≢ 0
abc-inner zero lt e = absurd (omega (arith, e))
abc-inner (suc zero) lt e = absurd (omega (arith, e))
abc-inner (suc (suc zero)) lt e = absurd (omega (arith, e))
abc-inner (suc (suc (suc i))) lt e = absurd (omega (arith, lt))

strlcpy-IsCut_example : IsCut abc 3 abc-inner refl noise 2 (strlcpy noise abc 3 2)
strlcpy-IsCut_example = strlcpy-IsCut abc 3 abc-inner refl noise 2
