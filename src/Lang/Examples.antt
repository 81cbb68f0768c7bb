-- ===== src/Lang/Examples.antt =====
-- Runs of the file types, and their theorems at an input.
use the_silver_searcher.Base.{ℕ, ◌+◌, ◌≤◌, ◌≡◌, refl, List, [], ◌∷◌, ◌++◌, map, length}
use the_silver_searcher.Lang.{
  grow, add_extension, add_extensions, make_lang_regex, combine_one, combine_types,
  combine_file_extensions,
}
use the_silver_searcher.Lang.Build.{join, make_lang_regex-join}
use the_silver_searcher.Lang.Table.{codes}

abbrev ada_and_coq : List (List (List ℕ))
ada_and_coq = map codes ("ada" ∷ "adb" ∷ "ads" ∷ []) ∷ map codes ("coq" ∷ "g" ∷ "v" ∷ []) ∷ []

regex_runs :
    (make_lang_regex (combine_file_extensions ada_and_coq)).text ≡ codes "\\.(ada|adb|ads|coq|g|v)$"
unfolding make_lang_regex add_extensions add_extension grow combine_file_extensions combine_types
    combine_one
regex_runs = refl

make_lang_regex-join_example :
    ((make_lang_regex (codes "c" ∷ [])).text
      ≡ (codes "\\.(" ++ join (codes "c" ∷ [])) ++ codes ")$")
    × (length (make_lang_regex (codes "c" ∷ [])).text + 1
        ≤ (make_lang_regex (codes "c" ∷ [])).capacity)
make_lang_regex-join_example = make_lang_regex-join (codes "c" ∷ [])
