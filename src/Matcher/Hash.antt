-- ===== src/Matcher/Hash.antt =====
-- `hash_strnstr` of src/util.c: the search by the table of pairs. An entry is the index of a pair and one
-- more, so 0 is a free cell.
pub mod Chain
pub mod First
use the_silver_searcher.Base.{
  ℕ, zero, suc, ◌+◌, ◌-◌, ◌*◌, ◌%◌, Bool, true, false, not, ◌&&◌, List, at, leb, ltb, ◌==◌,
  if◌then◌else◌, Option, none, some, Run, then_run, done, out_of_fuel,
}
use the_silver_searcher.Matcher.Occurrence.{fold_case}
use the_silver_searcher.Matcher.HashTable.{next_cell}

-- The loops that compare the query with the text from `start` on.
unfoldable pub same_from : (s find : List ℕ) (case_sensitive : Bool) (start rounds i : ℕ) → Bool
same_from s find case_sensitive start zero i = true
same_from s find case_sensitive start (suc rounds) i =
    fold_case (not case_sensitive) (at s (start + i)) == at find i
    && same_from s find case_sensitive start rounds (i + 1)

-- The loop over the cells: the place of the text where the query stands, if an entry leads to one.
unfoldable pub chain_loop :
    (size : ℕ) (s find : List ℕ) (f_len : ℕ) (table : ℕ → ℕ)
    → Bool
    → (s_i fuel h : ℕ) → Run (Option ℕ)
chain_loop size s find f_len table case_sensitive s_i zero h = out_of_fuel
chain_loop size s find f_len table case_sensitive s_i (suc fuel) h =
    let start = s_i - (table h - 1) in
    let rest = chain_loop size s find f_len table case_sensitive s_i fuel (next_cell size h) in
    if table h == 0
    then done none
    else if same_from s find case_sensitive start f_len 0
    then done (some start)
    else rest

-- `*(const uint16_t *)(s + s_i) % H_SIZE`, the low byte first.
abbrev pub word_at : (size : ℕ) (s : List ℕ) (s_i : ℕ) → ℕ
word_at size s s_i = (at s s_i + 256 * at s (s_i + 1)) % size

-- The loop over the tail.
unfoldable pub tail_loop :
    (s find : List ℕ) (s_len f_len : ℕ) → Bool → (fuel s_i : ℕ) → Run (Option ℕ)
tail_loop s find s_len f_len case_sensitive zero s_i = out_of_fuel
tail_loop s find s_len f_len case_sensitive (suc fuel) s_i =
    let rest = tail_loop s find s_len f_len case_sensitive fuel (s_i + 1) in
    if leb s_i (s_len - f_len)
    then if same_from s find case_sensitive s_i f_len 0 then done (some s_i) else rest
    else done none

-- The rest of a round of the loop over the text; `again` is the next round.
unfoldable pub on_chain : (again : Run (Option ℕ)) → Option ℕ → Run (Option ℕ)
on_chain again none = again
on_chain again (some start) = done (some start)

-- The loop that steps through the text.
unfoldable pub step_loop :
    (size : ℕ) (s find : List ℕ) (s_len f_len : ℕ) (table : ℕ → ℕ)
    → Bool
    → (fuel s_i : ℕ) → Run (Option ℕ)
step_loop size s find s_len f_len table case_sensitive zero s_i = out_of_fuel
step_loop size s find s_len f_len table case_sensitive (suc fuel) s_i =
    let step = f_len - 2 + 1 in
    let again = step_loop size s find s_len f_len table case_sensitive fuel (s_i + step) in
    let tail = tail_loop s find s_len f_len case_sensitive (s_len + 1) (s_i + 1 - step) in
    let chain = chain_loop size s find f_len table case_sensitive s_i size (word_at size s s_i) in
    if leb s_i (s_len - f_len) then then_run chain (on_chain again) else tail

-- `done none` is the result NULL; `done (some k)` is the pointer `s + k`.
unfoldable pub hash_strnstr :
    (size : ℕ) (s find : List ℕ) (s_len f_len : ℕ) (table : ℕ → ℕ) → Bool → Run (Option ℕ)
hash_strnstr size s find s_len f_len table case_sensitive =
    if ltb s_len f_len
    then done none
    else step_loop size s find s_len f_len table case_sensitive (s_len + 1) (f_len - 2)
