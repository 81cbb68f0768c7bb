-- ===== src/Matcher/Occurrence.antt =====
-- What a literal search looks for: the first place where the query stands in the text.
use the_silver_searcher.Base.{
  ℕ, ◌+◌, ◌≤◌, ◌<◌, ◌≡◌, Bool, Option, none, some, List, at, if◌then◌else◌,
}
use the_silver_searcher.Base.Chars.{tolower}

-- `case_insensitive ? tolower(c) : c`
abbrev pub fold_case : Bool → ℕ → ℕ
fold_case case_insensitive c = if case_insensitive then tolower c else c

-- The query is in lower case where case is ignored; `main` sees to that before a search.
abbrev pub IsFolded : Bool → List ℕ → ℕ → Type 0
IsFolded case_insensitive find f_len =
    (t : ℕ) → t < f_len → fold_case case_insensitive (at find t) ≡ at find t

-- The query stands at byte `k` of the text.
abbrev pub Occurs : Bool → List ℕ → ℕ → List ℕ → ℕ → Type 0
Occurs case_insensitive find f_len s k =
    (t : ℕ) → t < f_len → fold_case case_insensitive (at s (k + t)) ≡ at find t

-- `some k`: the query stands at `k`, within the text, and nowhere before. `none`: nowhere in it.
abbrev pub IsFirst : Bool → List ℕ → ℕ → List ℕ → ℕ → Option ℕ → Type 0
IsFirst ci find f_len s s_len none = (j : ℕ) → j + f_len ≤ s_len → ¬ Occurs ci find f_len s j
IsFirst ci find f_len s s_len (some k) =
    (k + f_len ≤ s_len) × Occurs ci find f_len s k × ((j : ℕ) → j < k → ¬ Occurs ci find f_len s j)
