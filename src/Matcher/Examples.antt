-- ===== src/Matcher/Examples.antt =====
-- Runs of the literal search, and its theorem at an input.
use the_silver_searcher.Base.{
  ℕ, zero, suc, ◌≡◌, refl, List, [], ◌∷◌, true, false, some, none, done, Returns, arith,
}
use the_silver_searcher.Base.Chars.{tolower}
use the_silver_searcher.Matcher.Occurrence.{IsFolded, IsFirst}
use the_silver_searcher.Matcher.Tables.{generate_alpha_skip, generate_find_skip}
use the_silver_searcher.Matcher.BoyerMoore.{boyer_moore_strnstr}
use the_silver_searcher.Matcher.HashTable.{generate_hash}
use the_silver_searcher.Matcher.Agree.{hash_strnstr-boyer_moore_strnstr}
use the_silver_searcher.Matcher.Hash.{hash_strnstr}
use the_silver_searcher.Matcher.Hash.First.{hash_strnstr-IsFirst}
use the_silver_searcher.Matcher.BoyerMoore.First.{boyer_moore_strnstr-IsFirst}

abbrev pattern_abab : List ℕ
pattern_abab = b'a' ∷ b'b' ∷ b'a' ∷ b'b' ∷ []

abbrev text : List ℕ
text = b'A' ∷ b'b' ∷ b'b' ∷ b'a' ∷ b'B' ∷ b'a' ∷ b'B' ∷ b'a' ∷ []

pattern_abab-IsFolded : IsFolded true pattern_abab 4
unfolding tolower
pattern_abab-IsFolded zero h = refl
pattern_abab-IsFolded (suc zero) h = refl
pattern_abab-IsFolded (suc (suc zero)) h = refl
pattern_abab-IsFolded (suc (suc (suc zero))) h = refl
pattern_abab-IsFolded (suc (suc (suc (suc t)))) h = absurd (omega arith)

boyer_moore_strnstr-IsFirst_example :
    Returns
      (boyer_moore_strnstr text pattern_abab 8 4
        (generate_alpha_skip pattern_abab 4 false)
        (generate_find_skip pattern_abab 4 false (λ _. 77))
        true)
      (IsFirst true pattern_abab 4 text 8)
boyer_moore_strnstr-IsFirst_example =
    boyer_moore_strnstr-IsFirst text pattern_abab 8 4 true (λ _. 77) (omega arith)
      pattern_abab-IsFolded

search_ignoring_case :
    boyer_moore_strnstr text pattern_abab 8 4
      (generate_alpha_skip pattern_abab 4 false)
      (generate_find_skip pattern_abab 4 false (λ _. 77))
      true
    ≡ done (some 3)
unfolding boyer_moore_strnstr generate_alpha_skip generate_find_skip tolower
search_ignoring_case = refl

search_with_case :
    boyer_moore_strnstr text pattern_abab 8 4
      (generate_alpha_skip pattern_abab 4 true)
      (generate_find_skip pattern_abab 4 true (λ _. 77))
      false
    ≡ done none
unfolding boyer_moore_strnstr generate_alpha_skip generate_find_skip tolower
search_with_case = refl

hash_strnstr-IsFirst_example :
    Returns (generate_hash 64 (b'b' ∷ b'a' ∷ b'b' ∷ []) 3 false) (λ table.
      (s : List ℕ) (s_len : ℕ)
      → Returns
          (hash_strnstr 64 s (b'b' ∷ b'a' ∷ b'b' ∷ []) s_len 3 table false)
          (IsFirst true (b'b' ∷ b'a' ∷ b'b' ∷ []) 3 s s_len))
hash_strnstr-IsFirst_example =
    hash_strnstr-IsFirst 64 (b'b' ∷ b'a' ∷ b'b' ∷ []) 3 false (omega arith) (omega arith)
      (omega arith)

hash_strnstr-boyer_moore_strnstr_example : Returns (generate_hash 64 pattern_abab 4 false) (λ table.
    (s : List ℕ) (s_len : ℕ)
    → hash_strnstr 64 s pattern_abab s_len 4 table false
      ≡ boyer_moore_strnstr s pattern_abab s_len 4
          (generate_alpha_skip pattern_abab 4 false)
          (generate_find_skip pattern_abab 4 false (λ _. 77))
          true)
hash_strnstr-boyer_moore_strnstr_example =
    hash_strnstr-boyer_moore_strnstr 64 pattern_abab 4 true (λ _. 77) (omega arith) (omega arith)
      (omega arith) pattern_abab-IsFolded
