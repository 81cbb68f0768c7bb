-- ===== src/Invert.antt =====
-- `invert_matches` of src/util.c. The array is a function from its indices; it is read and written in place.
pub mod Apart
pub mod Hang
mod Examples
use the_silver_searcher.Base.{
  ℕ, zero, suc, ◌+◌, ◌-◌, ◌%◌, ◌^◌, Bool, true, false, ◌&&◌, List, at, ltb, ◌==◌, if◌then◌else◌,
  update, Run, done, out_of_fuel,
}
use the_silver_searcher.Search.{Match}

-- The local variables of the loop, and the array.
pub record State : Type 0 where
  pub matches : ℕ → Match
  pub read_index : ℕ
  pub count : ℕ
  pub start : ℕ
  pub last_line_end : ℕ
  pub in_inverted : Bool
  pub next : Match

-- An entry of the result is written over the array.
abbrev pub emit : State → ℕ → State
emit s end = record s {
  matches = update s.matches s.count (record { start = s.start; end = end });
  count = s.count + 1;
}

-- The branch at the start of a match: the next match is read before an entry is written.
unfoldable pub at_match : (matches_len : ℕ) → State → State
at_match matches_len s =
    let read = s.read_index + 1 in
    let t = record s {
      read_index = read;
      next = if ltb read matches_len then s.matches read else s.next;
    } in
    let u =
      if s.in_inverted && ltb s.start s.last_line_end then emit t (s.last_line_end - 1) else t in
    record u { in_inverted = false }

-- The branch at the end of a line.
unfoldable pub at_newline : (i : ℕ) → State → State
at_newline i s = record s {
  last_line_end = i + 1;
  start = if s.in_inverted then s.start else i + 1;
  in_inverted = true;
}

-- One round at byte `i`: the byte of the next round, and the state. Behind a match the code sets `i` to
-- `end - 1`, and the loop adds one.
unfoldable pub round : (buf : List ℕ) (buf_len matches_len i : ℕ) → State → ℕ × State
round buf buf_len matches_len i s =
    if i == s.next.start
    then (s.next.end, at_match matches_len s)
    else if i == buf_len - 1 && s.in_inverted
    then (i + 1, emit s i)
    else if at buf i == b'\n'
    then (i + 1, at_newline i s)
    else (i + 1, s)

unfoldable pub invert_loop : (buf : List ℕ) (buf_len matches_len fuel i : ℕ) → State → Run State
invert_loop buf buf_len matches_len zero i s = out_of_fuel
invert_loop buf buf_len matches_len (suc fuel) i s =
    let after = round buf buf_len matches_len i s in
    let rest = invert_loop buf buf_len matches_len fuel after.0 after.1 in
    if ltb i buf_len then rest else done s

abbrev pub start_state : (ℕ → Match) → State
start_state matches = record {
  matches = matches;
  read_index = 0;
  count = 0;
  start = 0;
  last_line_end = 0;
  in_inverted = true;
  next = matches 0;
}

-- The count that is returned, with the array.
unfoldable pub invert_matches :
    (buf : List ℕ) (buf_len fuel : ℕ) (matches : ℕ → Match) (matches_len : ℕ)
    → Run (ℕ × (ℕ → Match))
invert_matches buf buf_len fuel matches matches_len =
    if matches_len == 0
    then done (1, update matches 0 (record { start = 0; end = (buf_len + 2 ^ 64 - 1) % 2 ^ 64 }))
    else elim (invert_loop buf buf_len matches_len fuel 0 (start_state matches)) [
      | out_of_fuel ↦ out_of_fuel
      | done s ↦ done (s.count, s.matches)
    ]
