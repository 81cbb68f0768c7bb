-- ===== src/Options/FileRegex/Langs.antt =====
-- Of the file types whose flags are set only the first one counts, and the patterns for names not at all.
use mathlib.Core.List.{append-nil, flatten}
use the_silver_searcher.Base.{
  ℕ, zero, suc, ◌+◌, ◌≡◌, ap, ◌∙◌, Bool, true, false, Option, some, List, [], ◌∷◌, ◌++◌, get_or,
  take, arith,
}
use the_silver_searcher.Mode.{Casing}
use the_silver_searcher.Lang.{combine_file_extensions}
use the_silver_searcher.Lang.Build.{join, make_lang_regex-join, combine_file_extensions-take}
use the_silver_searcher.Options.FileRegex.{
  opt_langs, chosen_langs, by_langs, or_langs, pattern_regex, given_pattern, file_search_regex,
}

-- The flags of the first `n` file types are not set, that of the next one is.
abbrev pub first_at : (n : ℕ) (others : List Bool) → List Bool
first_at zero others = true ∷ others
first_at (suc n) others = false ∷ first_at n others

chosen_langs-first :
    (n : ℕ) (others : List Bool) (i : ℕ) → chosen_langs (first_at n others) i ≡ (i + n) ∷ []
unfolding chosen_langs
chosen_langs-first zero others i = ap (λ k. k ∷ []) (omega arith)
chosen_langs-first (suc n) others i =
    chosen_langs-first n others (suc i) ∙ ap (λ k. k ∷ []) (omega arith)

-- Where the flag of a file type is set, by its option or by what the memory of the flags held before, the text of the
-- expression for the names of files has the extensions of the first such type, up to 100 of them, and case counts,
-- whatever the flags of the types behind it, and whatever pattern -g or -G gives.
pub file_search_regex-first :
    (langs : List (List (List ℕ))) (memory : List Bool) (given : List (Option Bool)) (n : ℕ)
    (others : List Bool) (g G : Option (List ℕ)) (casing : Casing) (word_regexp : Bool)
    → opt_langs memory given ≡ first_at n others
    → file_search_regex langs memory given g G casing word_regexp
      ≡ some (record {
        text = (b'\\' ∷ b'.' ∷ b'(' ∷ join (take 100 (get_or langs n []))) ++ b')' ∷ b'$' ∷ [];
        ignores_case = false;
      })
unfolding file_search_regex by_langs flatten
file_search_regex-first langs memory given n others g G casing word_regexp flags =
    let zero_on : 0 + n ≡ n = omega arith in
    let l = get_or langs n [] in
    let exts : combine_file_extensions (l ∷ []) ≡ take 100 l =
      combine_file_extensions-take (l ∷ []) ∙ ap (λ q. take 100 q) (append-nil l) in
    let text =
      (make_lang_regex-join (combine_file_extensions (l ∷ []))).0
      ∙ ap (λ q. (b'\\' ∷ b'.' ∷ b'(' ∷ join q) ++ b')' ∷ b'$' ∷ []) exts in
    ap (λ q. or_langs langs q (pattern_regex casing word_regexp (given_pattern g G)))
      (ap (λ l. chosen_langs l 0) flags ∙ chosen_langs-first n others 0)
    ∙ ap (λ k. some (by_langs langs (k ∷ []))) zero_on
    ∙ ap (λ t. some (record { text = t; ignores_case = false })) text
