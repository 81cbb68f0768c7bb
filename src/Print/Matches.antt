-- ===== src/Print/Matches.antt =====
-- `print_file_matches`: the loop over the bytes of a file.
pub mod Counts
use the_silver_searcher.Base.{
  ℕ, zero, suc, ◌+◌, ◌-◌, ◌%◌, ◌^◌, Bool, true, false, not, ◌&&◌, ◌||◌, Option, none, some, List,
  [], ◌∷◌, at, drop, ltb, leb, ◌==◌, if◌then◌else◌,
}
use the_silver_searcher.Search.{Match}
use the_silver_searcher.Print.{
  PathPrint, is_mode, PrintOpts, Printer, Piece, text, char, emit, print_path, print_path_count,
  print_line_number, print_file_separator, print_context_append, print_trailing_context, sep_of,
}
use the_silver_searcher.Print.Line.{Source, emit_if, print_match_line}

module _ (o : PrintOpts) (s : Source) where
  -- `ctx->line - (opts.before - j)` in a `size_t` of 64 bits.
  abbrev pub number_before : (j line : ℕ) → ℕ
  number_before j line =
      let back = o.before - j in if ltb line back then line + 2 ^ 64 - back else line - back

  -- One line before a match, from its place in the ring; it is a C string.
  unfoldable pub print_prev_line : (j : ℕ) → Option (List ℕ) → Printer → Printer
  print_prev_line j none p = p
  print_prev_line j (some line) p = emit (text line ∷ char b'\n' ∷ []) (
      print_line_number o (number_before j p.line) (sep_of o)
        (if is_mode p.print_path PathPrint.each_line then print_path o s.path b':' p else p))

  -- The loop over the lines before a match; `j` runs up to `opts.before`.
  unfoldable pub prev_lines_loop : (rounds j : ℕ) → Printer → Printer
  prev_lines_loop zero j p = p
  prev_lines_loop (suc rounds) j p =
      prev_lines_loop rounds (j + 1)
        (print_prev_line j (p.context_prev_lines ((p.last_prev_line + j) % o.before)) p)

  abbrev pub lines_to_print : Printer → ℕ
  lines_to_print p =
      let n = p.lines_since_last_match - (o.after + 1) in if ltb o.before n then o.before else n

  -- "We found the start of a match"
  unfoldable pub at_start : (cur_match : ℕ) → Printer → Printer
  at_start cur_match p =
      let parted =
        emit_if
          (ltb 0 cur_match
            && (ltb 0 o.context || ltb 0 o.after || ltb 0 o.before)
            && ltb (o.before + o.after + 1) p.lines_since_last_match)
          (b'-' ∷ b'-' ∷ b'\n' ∷ []) (record p { in_a_match = true }) in
      let shown =
        if ltb 0 p.lines_since_last_match && ltb 0 o.before
        then prev_lines_loop (lines_to_print p) (o.before - lines_to_print p) parted
        else parted in
      record shown { lines_since_last_match = 0 }

  -- The end of a line, unless a stream is searched.
  unfoldable pub at_line_end : (i : ℕ) → Printer → Printer
  at_line_end i p =
      let q = print_trailing_context o s.path s.buf p.prev_line_offset (i - p.prev_line_offset) p in
      emit_if (i == s.buf_len && not (at s.buf (i - 1) == b'\n')) (b'\n' ∷ []) (record q {
        prev_line_offset = i + 1;
        line_preceding_current_match_offset =
            if not q.in_a_match then i + 1 else q.line_preceding_current_match_offset;
      })

  abbrev pub is_line_end : (i : ℕ) → Bool
  is_line_end i = i == s.buf_len || at s.buf i == b'\n'

  -- The tests at the head of a round.
  abbrev pub goes_on : (cur_match : ℕ) → Printer → Bool
  goes_on cur_match p = ltb cur_match s.matches_len || leb p.lines_since_last_match o.after

  -- A round up to the end of a line: `cur_match`, and the printer.
  unfoldable pub at_byte : (i cur_match : ℕ) → Printer → ℕ × Printer
  at_byte i cur_match p =
      let begun =
        if ltb cur_match s.matches_len && i == (s.matches cur_match).start
        then at_start cur_match p
        else p in
      let ended : ℕ × Printer =
        if ltb cur_match s.matches_len && i == (s.matches cur_match).end
        then (cur_match + 1, record begun { in_a_match = false })
        else (cur_match, begun) in
      (
        ended.0,
        if is_line_end i && ltb 0 o.before
            then print_context_append o ended.1 (drop ended.1.prev_line_offset s.buf)
                (i - ended.1.prev_line_offset)
            else ended.1,
      )

  -- The lines of a match are printed when they end.
  unfoldable pub print_if_match : (i cur_match : ℕ) → Printer → Printer
  print_if_match i cur_match p =
      if p.lines_since_last_match == 0 then print_match_line o s i cur_match p else p

  -- What a round makes of `cur_match` and the printer, where it is not the last one of a stream.
  unfoldable pub next_state : (i cur_match : ℕ) → Printer → ℕ × Printer
  next_state i cur_match p =
      let (cur, q) = at_byte i cur_match p in
      (cur, if is_line_end i then at_line_end i (print_if_match i cur q) else q)

  -- The `break` behind the first line of a stream.
  unfoldable pub stream_end : (i cur_match : ℕ) → Printer → Printer
  stream_end i cur_match p =
      let (cur, q) = at_byte i cur_match p in
      record (print_if_match i cur q) { last_printed_match = 0 }

  unfoldable pub matches_loop : (rounds i cur_match : ℕ) → Printer → Printer
  matches_loop zero i cur_match p = p
  matches_loop (suc rounds) i cur_match p =
      let (cur, q) = next_state i cur_match p in
      let rest = matches_loop rounds (i + 1) cur q in
      let last = stream_end i cur_match p in
      if goes_on cur_match p then if is_line_end i && o.search_stream then last else rest else p

  abbrev pub settle : PathPrint → PathPrint
  settle m =
      if is_mode m PathPrint.default
      then PathPrint.top
      else if is_mode m PathPrint.default_each_line
      then PathPrint.each_line
      else m

  -- What is printed before the loop.
  unfoldable pub print_header : Printer → Printer
  print_header p =
      let q = print_file_separator o p in
      let settled = record q { print_path = settle q.print_path } in
      if is_mode settled.print_path PathPrint.top
      then if o.print_count
        then print_path_count o s.path o.path_sep s.matches_len settled
        else print_path o s.path o.path_sep settled
      else settled

  unfoldable pub print_file_matches : Printer → Printer
  print_file_matches p = matches_loop (s.buf_len + 1) 0 0 (print_header p)
