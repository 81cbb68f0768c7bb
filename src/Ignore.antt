-- ===== src/Ignore.antt =====
-- src/ignore.c and src/ignore.h: the ignore patterns of a directory and of those above it.
pub mod Add
pub mod Filter
pub mod Examples
use the_silver_searcher.Base.{
  ℕ, Bool, true, false, ◌&&◌, ◌||◌, not, List, [], ◌∷◌, ◌++◌, ltb, ◌==◌, if◌then◌else◌, length, at,
  ◌+◌,
}

-- `struct ignores`, less the pointer to its parent. Each array stands with its length.
pub record Ignores : Type 0 where
  pub extensions : List (List ℕ)
  pub names : List (List ℕ)
  pub slash_names : List (List ℕ)
  pub regexes : List (List ℕ)
  pub invert_regexes : List (List ℕ)
  pub slash_regexes : List (List ℕ)
  pub dirname : List ℕ
  pub abs_path : List ℕ

-- A node and those that its parent pointers lead to, nearest first. A directory's patterns are
-- loaded before a child is made, and stay as they are from then on.
abbrev pub Chain : Type 0
Chain = List Ignores

unfoldable pub is_empty : Ignores → Bool
is_empty ig =
    length ig.extensions
      + length ig.names
      + length ig.slash_names
      + length ig.regexes
      + length ig.slash_regexes
    == 0

-- The parent that a new node gets: an empty parent that has a parent itself is passed over.
unfoldable pub parent_of : Chain → Chain
unfolding is_empty
parent_of [] = []
parent_of (p ∷ []) = p ∷ []
parent_of (p ∷ q ∷ rest) = if is_empty p then q ∷ rest else p ∷ q ∷ rest

unfoldable pub abs_path_of : Chain → (dirname : List ℕ) → List ℕ
abs_path_of [] dirname = if length dirname == 1 && at dirname 0 == b'.' then [] else dirname
abs_path_of (p ∷ rest) dirname =
    if ltb 0 (length p.abs_path)
    then p.abs_path ++ b'/' ∷ dirname
    else if length dirname == 1 && at dirname 0 == b'.'
    then []
    else dirname

unfoldable pub init_ignore : (parent : Chain) (dirname : List ℕ) → Chain
unfolding parent_of abs_path_of
init_ignore parent dirname =
    record {
      extensions = [];
      names = [];
      slash_names = [];
      regexes = [];
      invert_regexes = [];
      slash_regexes = [];
      dirname = dirname;
      abs_path = abs_path_of parent dirname;
    }
    ∷ parent_of parent
