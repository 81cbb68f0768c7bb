-- ===== src/Binary/Examples.antt =====
-- Runs of the test for binary files, and its theorems at an input.
use the_silver_searcher.Base.{
  ℕ, zero, suc, ◌<◌, ◌≡◌, refl, true, false, List, [], ◌∷◌, at, done, arith,
}
use the_silver_searcher.Binary.{look, judge, binary_loop, is_binary}
use the_silver_searcher.Binary.Text.{IsPlain, is_binary-nul}

-- "hi" behind which a NUL stands
abbrev hi_nul : List ℕ
hi_nul = b'h' ∷ b'i' ∷ 0 ∷ b'!' ∷ []

abbrev ten_letters : List ℕ
ten_letters = b'a' ∷ b'a' ∷ b'a' ∷ b'a' ∷ b'a' ∷ b'a' ∷ b'a' ∷ b'a' ∷ b'a' ∷ b'a' ∷ []

-- A NUL behind the first byte of a sequence of two is not looked at.
hidden_nul : is_binary (0xC2 ∷ 0 ∷ ten_letters) 12 ≡ done false
unfolding is_binary binary_loop judge look
hidden_nul = refl

hi_nul-IsPlain : (j : ℕ) → j < 2 → IsPlain (at hi_nul j)
hi_nul-IsPlain zero lt = (omega arith, refl)
hi_nul-IsPlain (suc zero) lt = (omega arith, refl)
hi_nul-IsPlain (suc (suc j)) lt = absurd (omega arith)

-- "hi" in Cyrillic letters, and a byte that no sequence starts with
abbrev privet : List ℕ
privet = 0xD0 ∷ 0xBF ∷ 0xD1 ∷ 0x80 ∷ 0xFF ∷ []

is_binary-nul_example : is_binary hi_nul 4 ≡ done true
is_binary-nul_example = is_binary-nul hi_nul 4 2 (omega arith) hi_nul-IsPlain refl
