-- ===== src/Search/Regex/Examples.antt =====
-- Runs of the loops for a regular expression, and their theorems at an input.
use the_silver_searcher.Base.{
  ℕ, zero, suc, ◌+◌, ◌≤◌, ◌≡◌, refl, Option, none, some, List, [], ◌∷◌, done, Returns, arith, ◌==◌,
  if◌then◌else◌,
}
use the_silver_searcher.Search.{Match, Found, push, is_full}
use the_silver_searcher.Search.Regex.{
  Input, next_offset, multiline_loop, getline_loop, buf_getline, on_regex, on_line_regex, line_loop,
  after_line, lines_loop,
}
use the_silver_searcher.Search.Regex.Whole.{IsRegex, Ordered, multiline_loop-Ordered}

-- `a*`
abbrev leading : List ℕ → ℕ → ℕ
leading s zero = 0
leading [] (suc len) = 0
leading (c ∷ s) (suc len) = if c == b'a' then suc (leading s len) else 0

abbrev a_star : List ℕ → ℕ → Option Match
a_star s len = some (record { start = 0; end = leading s len })

leading_le : (s : List ℕ) (len : ℕ) → leading s len ≤ len
leading_le s zero = omega arith
leading_le [] (suc len) = omega arith
leading_le (c ∷ s) (suc len) = ground (arith, leading_le s len)

a_star-IsRegex : IsRegex a_star
a_star-IsRegex s len m e = ground (arith, leading_le s len, e)

-- `a`
abbrev one_a_at : ℕ → List ℕ → ℕ → Option Match
one_a_at i s zero = none
one_a_at i [] (suc len) = none
one_a_at i (c ∷ s) (suc len) =
    if c == b'a' then some (record { start = i; end = i + 1 }) else one_a_at (i + 1) s len

-- "a a"
abbrev a_a : Input
a_a = record { max_matches = 0; buf = b'a' ∷ b' ' ∷ b'a' ∷ []; buf_len = 3; spare = 0 }

abbrev no_match : Found
no_match = record { matches = []; size = 0 }

multiline_runs :
    multiline_loop a_star a_a 4 0 no_match
    ≡ done (record {
      matches =
          record { start = 0; end = 1 }
          ∷ record { start = 1; end = 1 }
          ∷ record { start = 2; end = 3 }
          ∷ [];
      size = 100;
    })
unfolding multiline_loop on_regex next_offset push is_full
multiline_runs = refl

-- The second `a` is stored one byte behind the buffer's last.
lines_runs :
    lines_loop (one_a_at 0) a_a 4 0 no_match
    ≡ done (record {
      matches = record { start = 0; end = 1 } ∷ record { start = 3; end = 4 } ∷ [];
      size = 100;
    })
unfolding lines_loop after_line line_loop on_line_regex buf_getline getline_loop next_offset push
    is_full
lines_runs = refl

multiline_loop-Ordered_example :
    Returns (multiline_loop a_star a_a 4 0 no_match) (Ordered a_star a_star-IsRegex a_a no_match 0)
multiline_loop-Ordered_example =
    multiline_loop-Ordered a_star a_star-IsRegex a_a 4 0 no_match (omega arith) (omega arith)
