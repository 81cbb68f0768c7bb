-- ===== src/Ignore/Examples.antt =====
-- Runs of the ignore code, and its theorems at an input.
use the_silver_searcher.Base.{ℕ, zero, suc, ◌≡◌, refl, false, none, some, List, [], ◌∷◌, arith}
use the_silver_searcher.Base.Bytes.{strcmp, starts_with}
use the_silver_searcher.Names.Sorted.{IsSorted}
use the_silver_searcher.Ignore.{Ignores, parent_of}
use the_silver_searcher.Ignore.Add.{load_ignore_patterns}
use the_silver_searcher.Ignore.Add.Keeps.{AllSorted}
use the_silver_searcher.Ignore.Filter.{
  Dirent, FilterOpts, Outside, FileType, filename_filter, ignored,
}
use the_silver_searcher.Ignore.Filter.Names.{filename_filter-names}
use the_silver_searcher.Ignore.Filter.Parents.{parent_of-ignored}

abbrev pub bare : Ignores
bare = record {
  extensions = [];
  names = [];
  slash_names = [];
  regexes = [];
  invert_regexes = [];
  slash_regexes = [];
  dirname = [];
  abs_path = [];
}

abbrev tags : List ℕ
tags = b't' ∷ b'a' ∷ b'g' ∷ b's' ∷ []

abbrev build : List ℕ
build = b'b' ∷ b'u' ∷ b'i' ∷ b'l' ∷ b'd' ∷ []

-- A file with a comment, "tags " and "/build".
load_runs :
    load_ignore_patterns bare (
      some (
        (b'#' ∷ b'x' ∷ b'\n' ∷ [])
        ∷ (b't' ∷ b'a' ∷ b'g' ∷ b's' ∷ b' ' ∷ b'\n' ∷ [])
        ∷ (b'/' ∷ b'b' ∷ b'u' ∷ b'i' ∷ b'l' ∷ b'd' ∷ [])
        ∷ []))
    ≡ record bare { names = tags ∷ []; slash_names = build ∷ [] }
unfolding load_ignore_patterns
load_runs = refl

abbrev two_names : Ignores
two_names = record bare { names = build ∷ tags ∷ [] }

nil-IsSorted : IsSorted []
nil-IsSorted i j le h = absurd (omega arith)

pub bare-AllSorted : AllSorted bare
bare-AllSorted = record {
  extensions = nil-IsSorted;
  names = nil-IsSorted;
  slash_names = nil-IsSorted;
  regexes = nil-IsSorted;
  invert_regexes = nil-IsSorted;
  slash_regexes = nil-IsSorted;
}

two_names-IsSorted : IsSorted (build ∷ tags ∷ [])
unfolding strcmp
two_names-IsSorted zero zero p q = cc
two_names-IsSorted zero (suc zero) p q = cc
two_names-IsSorted (suc i) zero p q = absurd (omega arith)
two_names-IsSorted (suc zero) (suc zero) p q = cc
two_names-IsSorted (suc (suc i)) (suc zero) p q = absurd (omega arith)
two_names-IsSorted i (suc (suc j)) p q = absurd (omega arith)

-- No pattern matches, every file is a regular one, and there is no filter.
abbrev world : Outside
world = record {
  stat = λ p. some FileType.regular;
  lstat = λ p. some FileType.regular;
  fnmatch = λ p s. false;
  dir_filter = none;
}

abbrev opts : FilterOpts
opts = record {
  search_hidden_files = false;
  follow_symlinks = false;
  search_all_files = false;
  path_to_ignore = false;
}

abbrev tags_file : Dirent
tags_file = record { d_name = tags; d_type = FileType.regular }

filename_filter-names_example :
    filename_filter world opts (bare ∷ two_names ∷ []) (b'.' ∷ []) [] tags_file ≡ false
unfolding starts_with
filename_filter-names_example =
    filename_filter-names world opts (bare ∷ two_names ∷ []) 1 two_names (b'.' ∷ []) [] tags_file 1
      refl two_names-IsSorted (omega arith) refl refl refl

parent_of-ignored_example :
    ignored world (parent_of (bare ∷ two_names ∷ [])) (b'.' ∷ []) [] tags none tags_file
    ≡ ignored world (bare ∷ two_names ∷ []) (b'.' ∷ []) [] tags none tags_file
parent_of-ignored_example =
    parent_of-ignored world refl (bare ∷ two_names ∷ []) (b'.' ∷ []) [] tags none tags_file
