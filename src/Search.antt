-- ===== src/Search.antt =====
-- src/search.c: the search of one buffer, and the matches that it collects.
pub mod Literal
pub mod Scan
pub mod Promise
pub mod Whole
pub mod Regex
mod Examples
use the_silver_searcher.Base.{
  ℕ, ◌+◌, ◌*◌, Bool, List, [], ◌∷◌, ◌++◌, length, ltb, leb, ◌&&◌, ◌==◌, if◌then◌else◌,
}

-- `match_t` of src/util.h: the bytes from `start` to before `end`.
pub record Match : Type 0 where
  pub start : ℕ
  pub end : ℕ

-- The array `matches` with its `matches_size`; `matches_len` is the length of the list. The array is
-- NULL exactly if its size is 0.
pub record Found : Type 0 where
  pub matches : List Match
  pub size : ℕ

-- `realloc_matches` of src/util.c, as the new size.
unfoldable pub realloc_matches : (size len : ℕ) → ℕ
realloc_matches size len = if ltb len size then size else if size == 0 then 100 else size * 2

-- Whether `max_matches_per_file` is reached.
unfoldable pub is_full : (max_matches len : ℕ) → Bool
is_full max_matches len = ltb 0 max_matches && leb max_matches len

-- A match is written behind the others, `spare` more places being kept free.
unfoldable pub push : (spare : ℕ) → Found → Match → Found
unfolding realloc_matches
push spare f m = record {
  matches = f.matches ++ m ∷ [];
  size = realloc_matches f.size (length f.matches + spare);
}
