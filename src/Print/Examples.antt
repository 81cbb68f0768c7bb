-- ===== src/Print/Examples.antt =====
-- Runs of the printing of matches, and its theorems at an input.
use the_silver_searcher.Base.{ℕ, ◌+◌, ◌-◌, ◌≡◌, refl, true, false, none, List, [], ◌∷◌, ◌++◌, arith}
use the_silver_searcher.Print.{
  PathPrint, Piece, text, number, char, PrintOpts, Printer, print_init_context, bytes_from,
  normalize_path, path_pieces, print_path, print_line_number, print_file_separator, print_line,
  print_trailing_context,
}
use the_silver_searcher.Print.Line.{
  Source, close_match, open_match, print_char, chars_loop, truncate, print_marked, print_match_line,
}
use the_silver_searcher.Print.Line.Plain.{chars, print_marked-chars}
use the_silver_searcher.Print.Matches.{
  prev_lines_loop, at_start, at_line_end, at_byte, print_if_match, next_state, matches_loop,
  print_header, print_file_matches,
}
use the_silver_searcher.Print.Matches.Counts.{start}
use the_silver_searcher.Print.Ring.{
  append_lines, newest_first, print_newest, prev_lines_loop-append_lines,
}

abbrev numbered : PrintOpts
numbered = record {
  ackmate = false;
  vimgrep = false;
  color = false;
  color_path = [];
  color_match = [];
  color_line_number = [];
  after = 0;
  before = 0;
  context = 0;
  width = 0;
  column = false;
  only_matching = false;
  path_sep = b'\n';
  print_break = true;
  print_count = false;
  print_line_numbers = true;
  search_stream = false;
}

abbrev at_begin : Printer
at_begin = record {
  out = [];
  first_file_match = true;
  print_path = PathPrint.default;
  line = 1;
  context_prev_lines = λ i. none;
  last_prev_line = 0;
  prev_line_offset = 0;
  line_preceding_current_match_offset = 0;
  lines_since_last_match = 9;
  last_printed_match = 0;
  in_a_match = false;
  printing_a_match = false;
}

-- "a", "bc" and "d", each with its end; "c" is a match.
abbrev three_lines : Source
three_lines = record {
  path = b'f' ∷ [];
  buf = b'a' ∷ b'\n' ∷ b'b' ∷ b'c' ∷ b'\n' ∷ b'd' ∷ b'\n' ∷ [];
  buf_len = 7;
  matches = λ i. record { start = 3; end = 4 };
  matches_len = 1;
}

abbrev printed : List Piece
printed =
    text (b'f' ∷ []) ∷ char b'\n' ∷ number 2 ∷ char b':' ∷ char b'b' ∷ char b'c' ∷ char b'\n' ∷ []

print_three_lines : (print_file_matches numbered three_lines at_begin).out ≡ printed
unfolding print_file_matches matches_loop print_header print_file_separator print_path path_pieces
    normalize_path next_state at_byte at_start at_line_end print_if_match print_match_line
    print_marked chars_loop close_match open_match print_char truncate print_line_number
    print_trailing_context print_init_context
print_three_lines = refl

-- With a line of context, the end of the text behind its last newline is printed as a line too.
abbrev with_context : PrintOpts
with_context = record numbered { after = 1 }

abbrev last_line : Source
last_line = record three_lines { matches = λ i. record { start = 5; end = 6 } }

print_phantom_line :
    (print_file_matches with_context last_line at_begin).out
    ≡ text (b'f' ∷ [])
      ∷ char b'\n'
      ∷ number 3
      ∷ char b':'
      ∷ char b'd'
      ∷ char b'\n'
      ∷ number 4
      ∷ char b'-'
      ∷ text []
      ∷ char b'\n'
      ∷ []
unfolding print_file_matches matches_loop print_header print_file_separator print_path path_pieces
    normalize_path next_state at_byte at_start at_line_end print_if_match print_match_line
    print_marked chars_loop close_match open_match print_char truncate print_line_number
    print_trailing_context bytes_from
print_phantom_line = refl

-- At the end of a text without a final newline one byte behind it is written.
print_line_behind : (print_line numbered (b'a' ∷ []) 1 0 at_begin).out ≡ text (b'a' ∷ 0 ∷ []) ∷ []
unfolding print_line bytes_from
print_line_behind = refl

abbrev with_ring : PrintOpts
with_ring = record numbered { before = 2 }

abbrev two_lines : List (List ℕ × ℕ)
two_lines = ((b'x' ∷ [], 1)) ∷ ((b'y' ∷ b'z' ∷ [], 1)) ∷ []

prev_lines_loop-append_lines_example :
    prev_lines_loop with_ring three_lines 2
      (with_ring.before - 2)
      (append_lines with_ring two_lines (print_init_context at_begin))
    ≡ print_newest with_ring three_lines 2
        (newest_first with_ring two_lines [])
        (append_lines with_ring two_lines (print_init_context at_begin))
prev_lines_loop-append_lines_example =
    prev_lines_loop-append_lines with_ring three_lines 2 two_lines at_begin (omega arith)
      (omega arith)

abbrev second : ℕ × Printer
second =
    next_state numbered three_lines 0 0
      (print_header numbered three_lines (print_init_context at_begin))

print_marked-chars_example :
    (print_marked numbered three_lines 1 at_begin).out
    ≡ (print_line_number numbered at_begin.line b':' at_begin).out
      ++ chars three_lines.buf at_begin.prev_line_offset (1 + 1 - at_begin.prev_line_offset)
print_marked-chars_example =
    print_marked-chars numbered three_lines
      (record { no_color = refl; all = refl; no_width = refl; no_column = refl }) 1 at_begin
      (omega arith) (omega arith)
