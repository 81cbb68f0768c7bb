-- ===== src/Search/Regex.antt =====
-- The loops of `search_buf` for a regular expression: over the whole buffer, and line by line.
pub mod Whole
mod Examples
use the_silver_searcher.Base.{
  ℕ, zero, suc, ◌+◌, ◌-◌, Bool, true, false, Option, none, some, List, at, drop, length, ltb, ◌==◌,
  if◌then◌else◌, Run, done, out_of_fuel,
}
use the_silver_searcher.Search.{Match, Found, push, is_full}

-- `tre_regnexec` on the pattern: the match in the first `len` bytes of a text, as offsets from its start.
abbrev pub Regex : Type 0
Regex = List ℕ → (len : ℕ) → Option Match

-- What the loops read.
pub record Input : Type 0 where
  pub max_matches : ℕ
  pub buf : List ℕ
  pub buf_len : ℕ
  pub spare : ℕ

-- Where the search goes on behind a match: one byte further if the match is empty.
unfoldable pub next_offset : (start end : ℕ) → ℕ
next_offset start end = if start == end then end + 1 else end

-- The rest of a round of the loop over the whole buffer.
unfoldable pub on_regex :
    Input → (again : ℕ → Found → Run Found) → (buf_offset : ℕ) → Found → Option Match → Run Found
on_regex s again buf_offset f none = done f
on_regex s again buf_offset f (some m) =
    let start = buf_offset + m.start in
    let end = buf_offset + m.end in
    let f' = push s.spare f (record { start = start; end = end }) in
    if is_full s.max_matches (length f'.matches) then done f' else again (next_offset start end) f'

unfoldable pub multiline_loop : Regex → Input → (fuel buf_offset : ℕ) → Found → Run Found
multiline_loop regex s zero buf_offset f = out_of_fuel
multiline_loop regex s (suc fuel) buf_offset f =
    let again = multiline_loop regex s fuel in
    if ltb buf_offset s.buf_len
    then on_regex s again buf_offset f (regex (drop buf_offset s.buf) (s.buf_len - buf_offset))
    else done f

-- `buf_getline` of src/util.c: the length of the line at an offset, less its `\n`.
unfoldable pub getline_loop : (cur : List ℕ) (rounds i : ℕ) → ℕ
getline_loop cur zero i = i
getline_loop cur (suc rounds) i = if at cur i == b'\n' then i else getline_loop cur rounds (i + 1)

unfoldable pub buf_getline : (buf : List ℕ) (buf_len buf_offset : ℕ) → ℕ
unfolding getline_loop
buf_getline buf buf_len buf_offset = getline_loop (drop buf_offset buf) (buf_len - buf_offset) 0

-- The matches of one line: `stopped` is the jump to `multiline_done`.
pub data LineEnd : Type 0 where
  stopped : Found → LineEnd
  finished : Found → LineEnd

-- The rest of a round of the loop in a line. Both `start` and `line_to_buf` hold `line_offset`.
unfoldable pub on_line_regex :
    Input
    → (again : ℕ → Found → Run LineEnd) → (buf_offset line_offset : ℕ) → Found
    → Option Match
    → Run LineEnd
on_line_regex s again buf_offset line_offset f none = done (finished f)
on_line_regex s again buf_offset line_offset f (some m) =
    let start = line_offset + m.start in
    let end = line_offset + m.end in
    let line_to_buf = buf_offset + line_offset in
    let f' = push s.spare f (record { start = start + line_to_buf; end = end + line_to_buf }) in
    if is_full s.max_matches (length f'.matches)
    then done (stopped f')
    else again (next_offset start end) f'

unfoldable pub line_loop :
    Regex → Input → (buf_offset line_len : ℕ) → (fuel line_offset : ℕ) → Found → Run LineEnd
line_loop regex s buf_offset line_len zero line_offset f = out_of_fuel
line_loop regex s buf_offset line_len (suc fuel) line_offset f =
    let again = line_loop regex s buf_offset line_len fuel in
    if ltb line_offset line_len
    then on_line_regex s again buf_offset line_offset f
        (regex (drop line_offset (drop buf_offset s.buf)) (line_len - line_offset))
    else done (finished f)

unfoldable pub after_line : (again : ℕ → Found → Run Found) → (next : ℕ) → Run LineEnd → Run Found
after_line again next out_of_fuel = out_of_fuel
after_line again next (done (stopped f)) = done f
after_line again next (done (finished f)) = again next f

unfoldable pub lines_loop : Regex → Input → (fuel buf_offset : ℕ) → Found → Run Found
lines_loop regex s zero buf_offset f = out_of_fuel
lines_loop regex s (suc fuel) buf_offset f =
    let again = lines_loop regex s fuel in
    let line_len = buf_getline s.buf s.buf_len buf_offset in
    if ltb buf_offset s.buf_len
    then after_line again (buf_offset + (line_len + 1))
        (line_loop regex s buf_offset line_len (line_len + 1) 0 f)
    else done f
