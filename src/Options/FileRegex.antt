-- ===== src/Options/FileRegex.antt =====
-- The regular expression for the names of files: -g, -G and the file types, in `parse_options` of src/options.c.
pub mod Langs
use the_silver_searcher.Base.{
  ℕ, zero, suc, Bool, true, false, ◌||◌, Option, none, some, List, [], ◌∷◌, ◌++◌, get_or,
  if◌then◌else◌,
}
use the_silver_searcher.Mode.{Casing, is_lowercase, casing_of, is_insensitive}
use the_silver_searcher.Lang.{Regex, make_lang_regex, combine_file_extensions}

-- The flags of the file types behind the parsing of the arguments: an option sets the flag of its type, and the
-- others are as `malloc` gave the memory.
unfoldable pub opt_langs : (memory : List Bool) (given : List (Option Bool)) → List Bool
opt_langs memory [] = []
opt_langs [] (some flag ∷ given) = flag ∷ opt_langs [] given
opt_langs [] (none ∷ given) = false ∷ opt_langs [] given
opt_langs (flag ∷ memory) (some set ∷ given) = set ∷ opt_langs memory given
opt_langs (flag ∷ memory) (none ∷ given) = flag ∷ opt_langs memory given

-- The loop over the file types, which ends at the first one whose flag is set.
unfoldable pub chosen_langs : (flags : List Bool) (i : ℕ) → List ℕ
chosen_langs [] i = []
chosen_langs (true ∷ flags) i = i ∷ []
chosen_langs (false ∷ flags) i = chosen_langs flags (suc i)

-- The expression, and whether case is ignored.
pub record FileRegex : Type 0 where
  pub text : List ℕ
  pub ignores_case : Bool

unfoldable pub by_pattern : Casing → (word_regexp : Bool) → (pattern : List ℕ) → FileRegex
by_pattern casing word_regexp pattern = record {
  text = if word_regexp then b'\\' ∷ b'b' ∷ (pattern ++ b'\\' ∷ b'b' ∷ []) else pattern;
  ignores_case = is_insensitive (casing_of casing pattern);
}

abbrev pub rows_of : (langs : List (List (List ℕ))) → List ℕ → List (List (List ℕ))
rows_of langs [] = []
rows_of langs (i ∷ ext_index) = get_or langs i [] ∷ rows_of langs ext_index

unfoldable pub by_langs : (langs : List (List (List ℕ))) → (ext_index : List ℕ) → FileRegex
by_langs langs ext_index = record {
  text = (make_lang_regex (combine_file_extensions (rows_of langs ext_index))).text;
  ignores_case = false;
}

abbrev pub pattern_regex : Casing → (word_regexp : Bool) → Option (List ℕ) → Option FileRegex
pattern_regex casing word_regexp none = none
pattern_regex casing word_regexp (some p) = some (by_pattern casing word_regexp p)

-- -g takes the place of -G.
abbrev pub given_pattern : (g G : Option (List ℕ)) → Option (List ℕ)
given_pattern none G = G
given_pattern (some p) G = some p

abbrev pub or_langs :
    (langs : List (List (List ℕ))) → (ext_index : List ℕ) → Option FileRegex → Option FileRegex
or_langs langs [] r = r
or_langs langs (i ∷ ext_index) r = some (by_langs langs (i ∷ ext_index))

-- `opts.file_search_regex`; `langs` is the table with the extensions of each file type, `memory` holds a flag for
-- each of them.
unfoldable pub file_search_regex :
    (langs : List (List (List ℕ))) (memory : List Bool) (given : List (Option Bool))
    (g G : Option (List ℕ)) (casing : Casing) (word_regexp : Bool)
    → Option FileRegex
file_search_regex langs memory given g G casing word_regexp =
    or_langs langs (chosen_langs (opt_langs memory given) 0)
      (pattern_regex casing word_regexp (given_pattern g G))
