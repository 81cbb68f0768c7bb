-- ===== src/Options/Examples.antt =====
-- Runs of the rules for the options, and their theorems at an input.
use mathlib.Core.Path.{subst}
use the_silver_searcher.Base.{
  ℕ, ◌<◌, ◌≡◌, refl, ap, true, false, Option, none, some, List, [], ◌∷◌, ◌++◌, length, take, get_or,
  Returns, arith,
}
use the_silver_searcher.Print.{PathPrint}
use the_silver_searcher.Options.{
  Settings, Flags, init_options, by_terminal, apply_flags, settle_output,
}
use the_silver_searcher.Ignore.Add.{trimmed_len, strip_dot}
use the_silver_searcher.Ignore.Add.Keeps.{AllSorted}
use the_silver_searcher.Ignore.Examples.{bare, bare-AllSorted}
use the_silver_searcher.Options.Config.{Home, IgnoreArgs, root_ignores}
use the_silver_searcher.Options.Config.Sorted.{
  IsTrimmed, AreTrimmed, nothing, comment, pattern, root_ignores-AllSorted,
}
use the_silver_searcher.Base.Chars.{isascii, isupper}
use the_silver_searcher.Lang.Build.{join}
use the_silver_searcher.Mode.{Casing, casing_of, is_lowercase}
use the_silver_searcher.Options.FileRegex.{opt_langs, chosen_langs, by_pattern, file_search_regex}
use the_silver_searcher.Options.FileRegex.Langs.{file_search_regex-first}
use the_silver_searcher.Options.Paths.{strip_slash}
use the_silver_searcher.Options.Settled.{IsSettled, settle_output-IsSettled}

-- `ag -c` with its output in a pipe.
abbrev counting : Flags
counting = record {
  all_types = false;
  count = true;
  filename = false;
  nofilename = false;
  stats_only = false;
  inverts = false;
  unrestricted = false;
  files_with_matches = false;
  files_without_matches = false;
  lists_files = false;
}

abbrev piped : Settings
piped = by_terminal false false (init_options false)

-- Each line of the output has the path of its file.
piped_by_line :
    (settle_output (apply_flags counting piped)).print_path ≡ PathPrint.default_each_line
unfolding init_options by_terminal apply_flags settle_output
piped_by_line = refl

piped_without_color : (settle_output (apply_flags counting piped)).color ≡ false
unfolding init_options by_terminal apply_flags settle_output
piped_without_color = refl

-- `ag --ackmate` on a terminal
abbrev for_ackmate : Settings
for_ackmate = record (by_terminal true true (init_options false)) { ackmate = true; context = 2 }

settle_output-IsSettled_example : IsSettled for_ackmate (settle_output for_ackmate)
settle_output-IsSettled_example = settle_output-IsSettled for_ackmate

-- `ag --ignore '*.o'`, with one file of patterns.
abbrev home : Home
home = record { home_dir = some (b'/' ∷ b'h' ∷ []); config_home = none }

abbrev ignore_args : IgnoreArgs
ignore_args = record {
  ignore_dir = none;
  ignore = some (b'*' ∷ b'.' ∷ b'o' ∷ []);
  path_to_ignore = none;
  search_all_files = false;
  skip_vcs_ignores = false;
  git = some (b'/' ∷ b'x' ∷ 0 ∷ []);
  home = home;
}

abbrev two_lines : List (List ℕ)
two_lines = (b'#' ∷ b'\n' ∷ []) ∷ (b'a' ∷ b'\n' ∷ []) ∷ []

abbrev some_or {ℓ} : {A : Type ℓ} → A → Option A → A
some_or d none = d
some_or d (some a) = a

abbrev every_file : List ℕ → Option (List (List ℕ))
every_file path = some two_lines

two_lines-AreTrimmed : AreTrimmed two_lines
unfolding trimmed_len strip_dot
two_lines-AreTrimmed =
    comment (b'#' ∷ b'\n' ∷ []) ((b'a' ∷ b'\n' ∷ []) ∷ []) refl
      (pattern (b'a' ∷ b'\n' ∷ []) [] refl nothing)

every_file-AreTrimmed :
    (path : List ℕ) (ls : List (List ℕ)) → every_file path ≡ some ls → AreTrimmed ls
every_file-AreTrimmed path ls e = subst AreTrimmed (ap (λ o. some_or [] o) e) two_lines-AreTrimmed

ends_in_o : IsTrimmed (b'*' ∷ b'.' ∷ b'o' ∷ [])
unfolding trimmed_len strip_dot
ends_in_o = refl

git_prints : (printed : List ℕ) → some (b'/' ∷ b'x' ∷ 0 ∷ []) ≡ some printed → length printed < 4
git_prints printed e = subst (λ q. length q < 4) (ap (λ o. some_or [] o) e) (omega arith)

root_ignores-AllSorted_example : Returns (root_ignores every_file 4 ignore_args bare) AllSorted
root_ignores-AllSorted_example =
    root_ignores-AllSorted every_file every_file-AreTrimmed 4 ignore_args bare (λ p e. cc)
      (λ p e. subst IsTrimmed (ap (λ o. some_or [] o) e) ends_in_o) git_prints bare-AllSorted

-- `ag -G '^x' --cc --py`: the files are those of the first type.
abbrev two_types : List (List (List ℕ))
two_types = ((b'c' ∷ []) ∷ (b'h' ∷ []) ∷ []) ∷ ((b'p' ∷ b'y' ∷ []) ∷ []) ∷ []

file_search_regex-first_example :
    file_search_regex two_types
      (false ∷ false ∷ [])
      (some true ∷ some true ∷ [])
      none
      (some (b'^' ∷ b'x' ∷ []))
      Casing.default
      false
    ≡ some (record {
      text = (b'\\' ∷ b'.' ∷ b'(' ∷ join (take 100 (get_or two_types 0 []))) ++ b')' ∷ b'$' ∷ [];
      ignores_case = false;
    })
unfolding opt_langs
file_search_regex-first_example =
    file_search_regex-first two_types (false ∷ false ∷ []) (some true ∷ some true ∷ []) 0
      (true ∷ []) none (some (b'^' ∷ b'x' ∷ [])) Casing.default false refl

-- Where nothing is asked for, the memory of the flags still may.
regex_of_memory :
    file_search_regex two_types
      (false ∷ true ∷ [])
      (none ∷ none ∷ [])
      none
      none
      Casing.default
      false
    ≡ some (record {
      text = (b'\\' ∷ b'.' ∷ b'(' ∷ join ((b'p' ∷ b'y' ∷ []) ∷ [])) ++ b')' ∷ b'$' ∷ [];
      ignores_case = false;
    })
unfolding opt_langs
regex_of_memory =
    file_search_regex-first two_types (false ∷ true ∷ []) (none ∷ none ∷ []) 1 [] none none
      Casing.default false refl

-- Where no flag is set, the pattern counts; its case is ignored, since it is in lower case.
regex_of_pattern :
    file_search_regex two_types
      (false ∷ false ∷ [])
      (none ∷ none ∷ [])
      none
      (some (b'x' ∷ []))
      Casing.default
      true
    ≡ some (record { text = b'\\' ∷ b'b' ∷ b'x' ∷ b'\\' ∷ b'b' ∷ []; ignores_case = true })
unfolding file_search_regex opt_langs chosen_langs by_pattern casing_of is_lowercase isascii isupper
regex_of_pattern = refl

-- `ag x src/ /`
path_src : strip_slash (b's' ∷ b'r' ∷ b'c' ∷ b'/' ∷ []) ≡ b's' ∷ b'r' ∷ b'c' ∷ []
unfolding strip_slash
path_src = refl

path_root : strip_slash (b'/' ∷ []) ≡ b'/' ∷ []
unfolding strip_slash
path_root = refl
