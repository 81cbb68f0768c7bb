-- ===== src/Print/Line.antt =====
-- How `print_file_matches` prints a line with a match: with the matches marked, for AckMate, or for vim.
pub mod Keeps
pub mod Plain
use the_silver_searcher.Base.{
  ℕ, zero, suc, ◌+◌, ◌-◌, ◌%◌, ◌^◌, Bool, true, false, not, ◌&&◌, ◌||◌, Option, none, some, List,
  [], ◌∷◌, at, ltb, leb, ◌==◌, if◌then◌else◌,
}
use the_silver_searcher.Search.{Match}
use the_silver_searcher.Print.{
  PathPrint, is_mode, PrintOpts, Printer, Piece, text, number, char, emit, color_reset, print_path,
  print_line_number, print_column_number, print_line, sep_of,
}

abbrev pub truncate_marker : List ℕ
truncate_marker = b' ' ∷ b'[' ∷ b'.' ∷ b'.' ∷ b'.' ∷ b']' ∷ []

abbrev pub emit_if : Bool → List ℕ → Printer → Printer
emit_if b s p = if b then emit (text s ∷ []) p else p

-- The matches of a file as an array, and the text.
pub record Source : Type 0 where
  pub path : List ℕ
  pub buf : List ℕ
  pub buf_len : ℕ
  pub matches : ℕ → Match
  pub matches_len : ℕ

module _ (o : PrintOpts) (s : Source) where
  -- The match that is printed next starts or ends at byte `j`.
  abbrev pub ends_at : ℕ → Printer → Bool
  ends_at j p = ltb p.last_printed_match s.matches_len && j == (s.matches p.last_printed_match).end

  abbrev pub starts_at : ℕ → Printer → Bool
  starts_at j p =
      ltb p.last_printed_match s.matches_len && j == (s.matches p.last_printed_match).start

  -- "close highlight of match term": the printer, and `printed_match`.
  unfoldable pub close_match : (j : ℕ) → Bool × Printer → Bool × Printer
  close_match j (printed_match, p) =
      if ends_at j p
      then (
        true,
        emit_if o.only_matching (b'\n' ∷ []) (record (emit_if o.color color_reset p) {
          printing_a_match = false;
          last_printed_match = p.last_printed_match + 1;
        }),
      )
      else (printed_match, p)

  abbrev pub is_too_wide : (j : ℕ) → Printer → Bool
  is_too_wide j p = ltb j s.buf_len && ltb 0 o.width && leb o.width (j - p.prev_line_offset)

  -- The rest of the line from byte `j` on is left out.
  unfoldable pub truncate : (i j : ℕ) → Printer → Printer
  truncate i j p = record (emit (char b'\n' ∷ []) (emit_if (ltb j i) truncate_marker p)) {
    last_printed_match = s.matches_len;
  }

  -- "open highlight of match term"
  unfoldable pub open_match : (j : ℕ) → Bool → Printer → Printer
  open_match j printed_match p =
      if starts_at j p
      then (let q =
            if o.only_matching && printed_match
            then (let r = print_line_number o p.line b':' (
                  if is_mode p.print_path PathPrint.each_line
                  then print_path o s.path b':' p
                  else p) in
                if o.column
                then print_column_number (s.matches p.last_printed_match) p.prev_line_offset b':' r
                else r)
            else p in
          record (emit_if o.color o.color_match q) { printing_a_match = true })
      else p

  unfoldable pub print_char : (j : ℕ) → Printer → Printer
  print_char j p =
      if ltb j s.buf_len
        && (not o.only_matching || p.printing_a_match)
        && (o.width == 0 || ltb (j - p.prev_line_offset) o.width)
      then emit (char (at s.buf j) ∷ []) p
      else p

  -- The loop over the bytes of a line, whose end is `i`. Too wide a line sets `j` to `i`, which ends the loop.
  unfoldable pub chars_loop : (i : ℕ) (rounds j : ℕ) → Bool × Printer → Printer
  chars_loop i zero j (printed_match, p) = p
  chars_loop i (suc rounds) j state =
      let (printed_match, p) = close_match j state in
      let rest =
        chars_loop i rounds (j + 1) (printed_match, print_char j (open_match j printed_match p)) in
      let last = print_char i (open_match i printed_match (truncate i j p)) in
      if is_too_wide j p then last else rest

  unfoldable pub print_marked : (i : ℕ) → Printer → Printer
  print_marked i p =
      let numbered = print_line_number o p.line b':' p in
      let placed =
        if o.column
        then print_column_number (s.matches p.last_printed_match) p.prev_line_offset b':' numbered
        else numbered in
      let opened = emit_if (p.printing_a_match && o.color) o.color_match placed in
      let printed = chars_loop i (i + 1 - p.prev_line_offset) p.prev_line_offset (false, opened) in
      emit_if (printed.printing_a_match && o.color) color_reset printed

  -- The start of each match in the line, and its length.
  unfoldable pub ackmate_loop : (cur_match rounds : ℕ) → Printer → Printer
  ackmate_loop cur_match zero p = p
  ackmate_loop cur_match (suc rounds) p =
      let m = s.matches p.last_printed_match in
      ackmate_loop cur_match rounds
        (record (emit
          (number ((m.start + 2 ^ 64 - p.line_preceding_current_match_offset) % 2 ^ 64)
            ∷ char b' '
            ∷ number (m.end - m.start)
            ∷ char (if p.last_printed_match == cur_match - 1 then b':' else b',')
            ∷ [])
          p) { last_printed_match = p.last_printed_match + 1 })

  unfoldable pub print_for_ackmate : (i cur_match : ℕ) → Printer → Printer
  print_for_ackmate i cur_match p = print_line o s.buf i p.prev_line_offset (
      ackmate_loop cur_match (cur_match - p.last_printed_match) (print_line_number o p.line b';' p))

  -- A line for each match.
  unfoldable pub vimgrep_loop : (i rounds : ℕ) → Printer → Printer
  vimgrep_loop i zero p = p
  vimgrep_loop i (suc rounds) p =
      let placed =
        print_column_number (s.matches p.last_printed_match) p.prev_line_offset (sep_of o)
          (print_line_number o p.line (sep_of o) (print_path o s.path (sep_of o) p)) in
      let q = print_line o s.buf i p.prev_line_offset placed in
      vimgrep_loop i rounds (record q { last_printed_match = p.last_printed_match + 1 })

  -- A line that holds a part of a match.
  unfoldable pub print_match_line : (i cur_match : ℕ) → Printer → Printer
  print_match_line i cur_match p =
      let q =
        if is_mode p.print_path PathPrint.each_line && not o.search_stream
        then print_path o s.path b':' p
        else p in
      if o.ackmate
      then print_for_ackmate i cur_match q
      else if o.vimgrep
      then vimgrep_loop i (cur_match - q.last_printed_match) q
      else print_marked i q
