-- ===== src/Matcher/Tables.antt =====
-- The skip tables of src/util.c: `generate_alpha_skip`, `is_prefix`, `suffix_len` and
-- `generate_find_skip`. A table is a function from its indices. The query is not empty: `parse_options` refuses one.
use the_silver_searcher.Base.{
  ℕ, zero, suc, ◌+◌, ◌-◌, Bool, true, false, List, at, update, ◌==◌, if◌then◌else◌,
}
use the_silver_searcher.Base.Chars.{tolower, toupper}

-- One round of the loop that fills the table; `last` is the length of the query less one.
unfoldable pub alpha_step : List ℕ → ℕ → Bool → ℕ → (ℕ → ℕ) → ℕ → ℕ
alpha_step find last case_sensitive i skip =
    if case_sensitive
    then update skip (at find i) (last - i)
    else update (update skip (tolower (at find i)) (last - i)) (toupper (at find i)) (last - i)

unfoldable pub alpha_loop : List ℕ → ℕ → Bool → (rounds i : ℕ) → (ℕ → ℕ) → ℕ → ℕ
alpha_loop find last case_sensitive zero i skip = skip
alpha_loop find last case_sensitive (suc rounds) i skip =
    alpha_loop find last case_sensitive rounds (i + 1) (alpha_step find last case_sensitive i skip)

unfoldable pub generate_alpha_skip : List ℕ → ℕ → Bool → ℕ → ℕ
unfolding alpha_loop alpha_step tolower toupper
generate_alpha_skip find f_len case_sensitive =
    alpha_loop find (f_len - 1) case_sensitive (f_len - 1) 0 (λ _. f_len)

-- The test of two bytes in `is_prefix` and `suffix_len`.
abbrev pub same_char : Bool → ℕ → ℕ → Bool
same_char case_sensitive a b = if case_sensitive then a == b else tolower a == tolower b

unfoldable pub prefix_loop : List ℕ → (pos : ℕ) → Bool → (rounds i : ℕ) → Bool
prefix_loop s pos case_sensitive zero i = true
prefix_loop s pos case_sensitive (suc rounds) i =
    if same_char case_sensitive (at s i) (at s (i + pos))
    then prefix_loop s pos case_sensitive rounds (i + 1)
    else false

unfoldable pub is_prefix : List ℕ → (s_len pos : ℕ) → Bool → Bool
unfolding prefix_loop tolower
is_prefix s s_len pos case_sensitive = prefix_loop s pos case_sensitive (s_len - pos) 0

unfoldable pub suffix_loop : List ℕ → (s_len pos : ℕ) → Bool → (rounds i : ℕ) → ℕ
suffix_loop s s_len pos case_sensitive zero i = i
suffix_loop s s_len pos case_sensitive (suc rounds) i =
    if same_char case_sensitive (at s (pos - i)) (at s (s_len - i - 1))
    then suffix_loop s s_len pos case_sensitive rounds (i + 1)
    else i

unfoldable pub suffix_len : List ℕ → (s_len pos : ℕ) → Bool → ℕ
unfolding suffix_loop tolower
suffix_len s s_len pos case_sensitive = suffix_loop s s_len pos case_sensitive pos 0

-- The first loop of `generate_find_skip`, with `i` counting down from the length of the query.
unfoldable pub prefix_pass : List ℕ → (f_len : ℕ) → Bool → (i last_prefix : ℕ) → (ℕ → ℕ) → ℕ → ℕ
prefix_pass find f_len case_sensitive zero last_prefix sl = sl
prefix_pass find f_len case_sensitive (suc i) last_prefix sl =
    let p = if is_prefix find f_len (suc i) case_sensitive then suc i else last_prefix in
    prefix_pass find f_len case_sensitive i p (update sl i (p + (f_len - suc i)))

-- One round of its second loop.
unfoldable pub suffix_step : List ℕ → (f_len : ℕ) → Bool → (i : ℕ) → (ℕ → ℕ) → ℕ → ℕ
suffix_step find f_len case_sensitive i sl =
    let s_len = suffix_len find f_len i case_sensitive in
    if at find (i - s_len) == at find (f_len - 1 - s_len)
    then sl
    else update sl (f_len - 1 - s_len) (f_len - 1 - i + s_len)

unfoldable pub suffix_pass : List ℕ → (f_len : ℕ) → Bool → (rounds i : ℕ) → (ℕ → ℕ) → ℕ → ℕ
suffix_pass find f_len case_sensitive zero i sl = sl
suffix_pass find f_len case_sensitive (suc rounds) i sl =
    suffix_pass find f_len case_sensitive rounds (i + 1)
      (suffix_step find f_len case_sensitive i sl)

-- `fresh` is what the allocated table holds at first.
unfoldable pub generate_find_skip : List ℕ → (f_len : ℕ) → Bool → (fresh : ℕ → ℕ) → ℕ → ℕ
unfolding prefix_pass suffix_pass suffix_step is_prefix suffix_len
generate_find_skip find f_len case_sensitive fresh =
    suffix_pass find f_len case_sensitive f_len 0
      (prefix_pass find f_len case_sensitive f_len f_len fresh)
