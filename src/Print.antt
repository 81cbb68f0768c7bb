-- ===== src/Print.antt =====
-- src/print.c: what is printed of the matches in a file, with the lines around them.
pub mod Written
pub mod Line
pub mod Matches
pub mod Ring
mod Examples
use the_silver_searcher.Base.{
  ℕ, zero, suc, ◌+◌, ◌-◌, ◌%◌, ◌^◌, Bool, true, false, not, ◌&&◌, ◌||◌, Option, none, some, List,
  [], ◌∷◌, ◌++◌, at, drop, length, ltb, leb, ◌==◌, if◌then◌else◌, update,
}
use the_silver_searcher.Search.{Match}

-- `enum path_print_behavior`.
pub data PathPrint : Type 0 where
  default default_each_line top each_line nothing : PathPrint

abbrev pub is_mode : PathPrint → PathPrint → Bool
is_mode default default = true
is_mode default_each_line default_each_line = true
is_mode top top = true
is_mode each_line each_line = true
is_mode nothing nothing = true
is_mode _ _ = false

-- What is written: bytes, and numbers by `%lu`.
pub data Piece : Type 0 where
  text : List ℕ → Piece
  number : ℕ → Piece

-- The options that the output goes by, less `print_path`, which it changes.
pub record PrintOpts : Type 0 where
  pub ackmate : Bool
  pub vimgrep : Bool
  pub color : Bool
  pub color_path : List ℕ
  pub color_match : List ℕ
  pub color_line_number : List ℕ
  pub after : ℕ
  pub before : ℕ
  pub context : ℕ
  pub width : ℕ
  pub column : Bool
  pub only_matching : Bool
  pub path_sep : ℕ
  pub print_break : Bool
  pub print_count : Bool
  pub print_line_numbers : Bool
  pub search_stream : Bool

-- `print_context_t`, with what has been written, `first_file_match` and `opts.print_path`.
pub record Printer : Type 0 where
  pub out : List Piece
  pub first_file_match : Bool
  pub print_path : PathPrint
  pub line : ℕ
  pub context_prev_lines : ℕ → Option (List ℕ)
  pub last_prev_line : ℕ
  pub prev_line_offset : ℕ
  pub line_preceding_current_match_offset : ℕ
  pub lines_since_last_match : ℕ
  pub last_printed_match : ℕ
  pub in_a_match : Bool
  pub printing_a_match : Bool

abbrev pub int_max : ℕ
int_max = 2 ^ 31 - 1

-- The context of a file, by the printer of the file before.
unfoldable pub print_init_context : Printer → Printer
print_init_context p = record p {
  line = 1;
  context_prev_lines = λ i. none;
  last_prev_line = 0;
  prev_line_offset = 0;
  line_preceding_current_match_offset = 0;
  lines_since_last_match = int_max;
  last_printed_match = 0;
  in_a_match = false;
  printing_a_match = false;
}

abbrev pub emit : List Piece → Printer → Printer
emit pieces p = record p { out = p.out ++ pieces }

-- `fwrite(buf + from, 1, n, out_fd)`, and the bytes that `ag_strndup` copies.
unfoldable pub bytes_from : (buf : List ℕ) (from n : ℕ) → List ℕ
bytes_from buf from zero = []
bytes_from buf from (suc n) = at buf from ∷ bytes_from buf (from + 1) n

unfoldable pub strndup : List ℕ → ℕ → List ℕ
strndup [] n = []
strndup (c ∷ s) zero = []
strndup (c ∷ s) (suc n) = if c == 0 then [] else c ∷ strndup s n

-- The line replaces the oldest one.
unfoldable pub print_context_append : PrintOpts → Printer → (line : List ℕ) (len : ℕ) → Printer
print_context_append o p line len = if o.before == 0 then p else record p {
  context_prev_lines = update p.context_prev_lines p.last_prev_line (some (strndup line len));
  last_prev_line = (p.last_prev_line + 1) % o.before;
}

unfoldable pub normalize_path : List ℕ → List ℕ
normalize_path path =
    if ltb (length path) 3
    then path
    else if at path 0 == b'.' && at path 1 == b'/'
    then drop 2 path
    else if at path 0 == b'/' && at path 1 == b'/'
    then drop 1 path
    else path

abbrev pub color_reset : List ℕ
color_reset = 27 ∷ b'[' ∷ b'0' ∷ b'm' ∷ 27 ∷ b'[' ∷ b'K' ∷ []

abbrev pub char : ℕ → Piece
char c = text (c ∷ [])

unfoldable pub path_pieces : PrintOpts → (path : List ℕ) (sep : ℕ) → List Piece
path_pieces o path sep =
    if o.ackmate
    then char b':' ∷ text (normalize_path path) ∷ char sep ∷ []
    else if o.vimgrep
    then text (normalize_path path) ∷ char sep ∷ []
    else if o.color
    then text o.color_path ∷ text (normalize_path path) ∷ text color_reset ∷ char sep ∷ []
    else text (normalize_path path) ∷ char sep ∷ []

unfoldable pub print_path : PrintOpts → (path : List ℕ) (sep : ℕ) → Printer → Printer
print_path o path sep p =
    if is_mode p.print_path nothing && not o.vimgrep then p else emit (path_pieces o path sep) p

-- `%lu` and the separator, in the colour of line numbers.
abbrev pub number_pieces : PrintOpts → (n sep : ℕ) → List Piece
number_pieces o n sep =
    if o.color
    then text o.color_line_number ∷ number n ∷ text color_reset ∷ char sep ∷ []
    else number n ∷ char sep ∷ []

unfoldable pub print_path_count : PrintOpts → (path : List ℕ) (sep count : ℕ) → Printer → Printer
print_path_count o path sep count p =
    emit (number_pieces o count sep) (if at path 0 == 0 then p else print_path o path b':' p)

unfoldable pub print_line_number : PrintOpts → (line sep : ℕ) → Printer → Printer
print_line_number o line sep p =
    if o.print_line_numbers then emit (number_pieces o line sep) p else p

unfoldable pub print_column_number : Match → (prev_line_offset sep : ℕ) → Printer → Printer
print_column_number m prev_line_offset sep p =
    emit
      (number (if leb prev_line_offset m.start then m.start - prev_line_offset + 1 else 0)
        ∷ char sep
        ∷ [])
      p

unfoldable pub print_file_separator : PrintOpts → Printer → Printer
print_file_separator o p =
    let q = if not p.first_file_match && o.print_break then emit (char b'\n' ∷ []) p else p in
    record q { first_file_match = false }

unfoldable pub print_binary_file_matches : PrintOpts → (path : List ℕ) → Printer → Printer
print_binary_file_matches o path p =
    emit
      (text (b'B' ∷ b'i' ∷ b'n' ∷ b'a' ∷ b'r' ∷ b'y' ∷ b' ' ∷ b'f' ∷ b'i' ∷ b'l' ∷ b'e' ∷ b' ' ∷ [])
        ∷ text (normalize_path path)
        ∷ text (b' ' ∷ b'm' ∷ b'a' ∷ b't' ∷ b'c' ∷ b'h' ∷ b'e' ∷ b's' ∷ b'.' ∷ b'\n' ∷ [])
        ∷ [])
      (print_file_separator o p)

-- The bytes of a line with the one that ends it, cut off at the width.
unfoldable pub print_line :
    PrintOpts → (buf : List ℕ) (buf_pos prev_line_offset : ℕ) → Printer → Printer
print_line o buf buf_pos prev_line_offset p =
    let write_chars = buf_pos - prev_line_offset + 1 in
    let n = if ltb 0 o.width && ltb o.width write_chars then o.width else write_chars in
    emit (text (bytes_from buf prev_line_offset n) ∷ []) p

abbrev pub sep_of : PrintOpts → ℕ
sep_of o = if o.ackmate || o.vimgrep then b':' else b'-'

-- A line behind a match, and the count of lines.
unfoldable pub print_trailing_context :
    PrintOpts → (path buf : List ℕ) (from n : ℕ) → Printer → Printer
print_trailing_context o path buf from n p =
    let shown =
      if not (p.lines_since_last_match == 0) && leb p.lines_since_last_match o.after
      then emit (text (bytes_from buf from n) ∷ char b'\n' ∷ []) (
          print_line_number o p.line (sep_of o)
            (if is_mode p.print_path each_line then print_path o path b':' p else p))
      else p in
    record shown {
      line = p.line + 1;
      lines_since_last_match =
          if not p.in_a_match && ltb p.lines_since_last_match int_max
          then p.lines_since_last_match + 1
          else p.lines_since_last_match;
    }
