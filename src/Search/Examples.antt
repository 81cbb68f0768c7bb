-- ===== src/Search/Examples.antt =====
-- Runs of the literal search of a buffer, and its theorem at an input.
use the_silver_searcher.Base.{ℕ, ◌≡◌, refl, List, [], ◌∷◌, true, false, done, Returns, arith}
use the_silver_searcher.Base.Chars.{tolower}
use the_silver_searcher.Matcher.Tables.{generate_alpha_skip, generate_find_skip}
use the_silver_searcher.Matcher.BoyerMoore.{boyer_moore_strnstr}
use the_silver_searcher.Matcher.HashTable.{
  generate_hash, hash_loop, caps_loop, put_entry, free_cell, hash_of,
}
use the_silver_searcher.Matcher.Hash.{
  hash_strnstr, step_loop, tail_loop, on_chain, chain_loop, same_from,
}
use the_silver_searcher.Search.{is_full, push}
use the_silver_searcher.Search.Literal.{is_wordchar, on_boundary, on_match, on_result, literal_loop}
use the_silver_searcher.Search.Scan.{Scan}
use the_silver_searcher.Search.Promise.{Fits}
use the_silver_searcher.Search.Whole.{Query, setup, literal_search, literal_search-Scan}

abbrev ab_as_word : Query
ab_as_word = record {
  query = b'a' ∷ b'b' ∷ [];
  case_insensitive = false;
  word_regexp = true;
  max_matches_per_file = 0;
  invert_match = true;
  fresh = λ _. 9;
  is_x86 = true;
}

-- "ab abab_ ab"
abbrev line : List ℕ
line = b'a' ∷ b'b' ∷ b' ' ∷ b'a' ∷ b'b' ∷ b'a' ∷ b'b' ∷ b'_' ∷ b' ' ∷ b'a' ∷ b'b' ∷ []

literal_search_words :
    literal_search ab_as_word line
    ≡ done (record {
      matches = record { start = 0; end = 2 } ∷ record { start = 9; end = 11 } ∷ [];
      size = 100;
    })
unfolding literal_search generate_hash hash_loop caps_loop put_entry free_cell hash_of literal_loop
    on_result on_match is_full on_boundary is_wordchar push boyer_moore_strnstr generate_alpha_skip
    generate_find_skip tolower
literal_search_words = refl

literal_search-Scan_example : Returns (literal_search ab_as_word line) (λ f.
    Scan false (b'a' ∷ b'b' ∷ []) (setup ab_as_word line) 0 0 f.matches
    × Fits (setup ab_as_word line).spare f)
literal_search-Scan_example =
    literal_search-Scan ab_as_word line (omega arith) (omega arith) (λ t h. refl)

-- "abab" in the same line, by the table of pairs.
abbrev abab : Query
abab = record ab_as_word {
  query = b'a' ∷ b'b' ∷ b'a' ∷ b'b' ∷ [];
  word_regexp = false;
  case_insensitive = true;
}

literal_search_by_hash :
    literal_search abab line
    ≡ done (record { matches = record { start = 3; end = 7 } ∷ []; size = 100 })
unfolding literal_search generate_hash hash_loop caps_loop put_entry free_cell hash_of literal_loop
    on_result on_match is_full on_boundary is_wordchar push hash_strnstr step_loop tail_loop
    on_chain chain_loop same_from tolower
literal_search_by_hash = refl
