-- ===== src/Matcher/BoyerMoore.antt =====
-- `boyer_moore_strnstr` of src/util.c. `pos` and `i` go one below 0 in the code, so the model holds
-- `pos + 1` and `i + 1` where they count down.
pub mod Stop
pub mod Move
pub mod First
use the_silver_searcher.Base.{
  ℕ, zero, suc, ◌+◌, ◌-◌, ◌≤◌, ◌<◌, ◌≡◌, ◌≢◌, refl, ap, ◌∙◌, Bool, true, false, not, List, at,
  arith, ◌==◌, ltb, if◌then◌else◌, Option, none, some, Run, done, out_of_fuel, Returns, Bool-cases,
  dec_le, dec_lt, lt→ltb, not_lt→ltb, eq→==, ne→==, ℕ_discrete, sym,
}
use the_silver_searcher.Matcher.Occurrence.{fold_case, IsFolded, Occurs, IsFirst}
use the_silver_searcher.Matcher.Tables.{generate_alpha_skip, generate_find_skip}
use the_silver_searcher.Matcher.AlphaSkip.{IsAlpha, generate_alpha_skip-IsAlpha}
use the_silver_searcher.Matcher.FindSkip.{IsShift, IsSkip, generate_find_skip-IsSkip}

unfoldable pub ag_max : ℕ → ℕ → ℕ
ag_max a b = if ltb a b then b else a

-- The inner loop: `i + 1` and `pos + 1` where it stops.
unfoldable pub match_back : List ℕ → List ℕ → Bool → (i1 pos1 : ℕ) → ℕ × ℕ
match_back s find case_insensitive zero pos1 = (0, pos1)
match_back s find case_insensitive (suc i) pos1 =
    if fold_case case_insensitive (at s (pos1 - 1)) == at find i
    then match_back s find case_insensitive i (pos1 - 1)
    else (suc i, pos1)

-- What the outer loop does once the inner one has stopped: return the place, or move `pos` on.
unfoldable pub shift_pos : List ℕ → (alpha_skip find_skip : ℕ → ℕ) → ℕ × ℕ → ℕ
unfolding ag_max
shift_pos s alpha_skip find_skip (i1, pos1) =
    pos1 - 1 + ag_max (alpha_skip (at s (pos1 - 1))) (find_skip (i1 - 1))

-- `done none` is the result NULL; `done (some k)` is the pointer `s + k`.
unfoldable pub search_loop :
    (s find : List ℕ) (s_len f_len : ℕ) (alpha_skip find_skip : ℕ → ℕ)
    → Bool
    → (fuel pos : ℕ) → Run (Option ℕ)
search_loop s find s_len f_len alpha_skip find_skip case_insensitive zero pos = out_of_fuel
search_loop s find s_len f_len alpha_skip find_skip case_insensitive (suc fuel) pos =
    let stop = match_back s find case_insensitive f_len (pos + 1) in
    let rest =
      search_loop s find s_len f_len alpha_skip find_skip case_insensitive fuel
        (shift_pos s alpha_skip find_skip stop) in
    if ltb pos s_len then (if stop.0 == 0 then done (some stop.1) else rest) else done none

unfoldable pub boyer_moore_strnstr :
    (s find : List ℕ) (s_len f_len : ℕ) (alpha_skip find_skip : ℕ → ℕ) → Bool → Run (Option ℕ)
unfolding search_loop match_back shift_pos
boyer_moore_strnstr s find s_len f_len alpha_skip find_skip case_insensitive =
    search_loop s find s_len f_len alpha_skip find_skip case_insensitive (s_len + 1) (f_len - 1)
