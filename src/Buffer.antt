-- ===== src/Buffer.antt =====
-- `search_buf` of src/search.c: is a buffer searched, how, and what is printed and counted of its matches?
pub mod Tested
pub mod Report
pub mod Outcome
pub mod Stream
pub mod File
pub mod Prepared
pub mod Steady
pub mod Examples
use the_silver_searcher.Base.{
  ℕ, ◌+◌, ◌-◌, Bool, true, false, not, ◌&&◌, ◌||◌, Option, none, some, List, [], ◌∷◌, at, get_elem?,
  length, ltb, ◌==◌, if◌then◌else◌, Run, done, then_run,
}
use the_silver_searcher.Search.{Match, Found}
use the_silver_searcher.Search.Whole.{Query, no_matches, literal_search}
use the_silver_searcher.Search.Regex.{Regex, Input, multiline_loop, lines_loop}
use the_silver_searcher.Invert.{invert_matches}
use the_silver_searcher.Binary.{is_binary}
use the_silver_searcher.Print.{
  PrintOpts, Printer, text, emit, strndup, print_path, print_path_count, print_binary_file_matches,
  print_context_append,
}
use the_silver_searcher.Print.Matches.{print_file_matches}

-- The options that `search_buf` reads, with those of the query and of the output.
pub record BufOpts : Type 0 where
  pub search_binary_files : Bool
  pub mmap : Bool
  pub literal : Bool
  pub multiline : Bool
  pub stats : Bool
  pub print_nonmatching_files : Bool
  pub print_all_paths : Bool
  pub print_filename_only : Bool
  pub passthrough : Bool
  pub query : Query
  pub re : Regex
  pub print : PrintOpts

-- `ag_stats`, less the times.
pub record Stats : Type 0 where
  pub total_bytes : ℕ
  pub total_files : ℕ
  pub total_matches : ℕ
  pub total_file_matches : ℕ

-- What a search changes: the output with the context of the file, the statistics, and `opts.match_found`.
pub record World : Type 0 where
  pub printer : Printer
  pub stats : Stats
  pub match_found : Bool

-- The result of a search; `skipped` is -1.
pub data Searched : Type 0 where
  skipped : Searched
  matched : ℕ → Searched

-- The variable `binary` behind the first test: 0, or -1; a file for which it is 1 is left there.
pub data BinaryTest : Type 0 where
  is_not not_known leave : BinaryTest

unfoldable pub test_binary : BufOpts → (buf : List ℕ) → Run BinaryTest
test_binary o buf =
    let looked : Run BinaryTest =
      then_run (is_binary buf (length buf)) (λ b. done (if b then leave else is_not)) in
    if o.print.search_stream
    then done is_not
    else if not o.search_binary_files && o.mmap
    then looked
    else done not_known

-- The query `.` as a regular expression.
abbrev pub is_dot : BufOpts → Bool
is_dot o = not o.literal && length o.query.query == 1 && at o.query.query 0 == b'.'

abbrev pub input : BufOpts → (buf : List ℕ) → Input
input o buf = record {
  max_matches = o.query.max_matches_per_file;
  buf = buf;
  buf_len = length buf;
  spare = if o.query.invert_match then 1 else 0;
}

unfoldable pub find_matches : BufOpts → (buf : List ℕ) → Run Found
find_matches o buf =
    if is_dot o
    then done (record { matches = record { start = 0; end = length buf } ∷ []; size = 1 })
    else if o.literal
    then literal_search o.query buf
    else if o.multiline
    then multiline_loop o.re (input o buf) (length buf + 1) 0 (no_matches o.query)
    else lines_loop o.re (input o buf) (length buf + 1) 0 (no_matches o.query)

-- An array from its entries; nothing is known behind them.
abbrev pub or_zero : Option Match → Match
or_zero none = record { start = 0; end = 0 }
or_zero (some m) = m

abbrev pub array_of : List Match → ℕ → Match
array_of ms i = or_zero (get_elem? ms i)

unfoldable pub all_matches : BufOpts → (buf : List ℕ) → Run (ℕ × (ℕ → Match))
all_matches o buf = then_run (find_matches o buf) (λ f.
    if o.query.invert_match
    then invert_matches buf (length buf) (length buf + 1) (array_of f.matches) (length f.matches)
    else done (length f.matches, array_of f.matches))

unfoldable pub count_stats : BufOpts → (buf_len matches_len : ℕ) → Stats → Stats
count_stats o buf_len matches_len s =
    if o.stats
    then record {
      total_bytes = s.total_bytes + buf_len;
      total_files = s.total_files + 1;
      total_matches = s.total_matches + matches_len;
      total_file_matches =
          if ltb 0 matches_len then s.total_file_matches + 1 else s.total_file_matches;
    }
    else s

abbrev pub is_shown : BufOpts → (matches_len : ℕ) → Bool
is_shown o matches_len = not o.print_nonmatching_files && (ltb 0 matches_len || o.print_all_paths)

-- `binary` where the matches are printed. Where only the path is, it is not read.
unfoldable pub settle_binary : BufOpts → (buf : List ℕ) → BinaryTest → Run Bool
settle_binary o buf is_not = done false
settle_binary o buf leave = done true
settle_binary o buf not_known =
    if o.print_filename_only then done true else is_binary buf (length buf)

unfoldable pub print_found :
    BufOpts
    → (path buf : List ℕ) (binary : Bool) (matches : ℕ → Match) (matches_len : ℕ) → Printer
    → Printer
print_found o path buf binary matches matches_len p =
    if o.print_filename_only
    then if o.print.print_count
      then print_path_count o.print path o.print.path_sep matches_len p
      else print_path o.print path o.print.path_sep p
    else if binary
    then print_binary_file_matches o.print path p
    else print_file_matches o.print
        (record {
          path = path;
          buf = buf;
          buf_len = length buf;
          matches = matches;
          matches_len = matches_len;
        })
        p

-- What is printed; a line of a stream without a match is passed on where that is asked for.
unfoldable pub report :
    BufOpts
    → (path buf : List ℕ) → BinaryTest
    → (matches : ℕ → Match) (matches_len : ℕ) → World
    → Run World
report o path buf t matches matches_len w =
    let printed : Run World = then_run (settle_binary o buf t) (λ binary. done (record w {
      printer = print_found o path buf binary matches matches_len w.printer;
      match_found = true;
    })) in
    if is_shown o matches_len
    then printed
    else if o.print.search_stream && o.passthrough
    then done (record w { printer = emit (text (strndup buf (length buf)) ∷ []) w.printer })
    else done w

-- A line of a stream without a match goes into the ring.
unfoldable pub keep_line : BufOpts → (buf : List ℕ) (matches_len : ℕ) → World → World
keep_line o buf matches_len w =
    if matches_len == 0 && o.print.search_stream
    then record w { printer = print_context_append o.print w.printer buf (length buf - 1) }
    else w

-- Behind the test for binary files.
unfoldable pub search_text :
    BufOpts → (path buf : List ℕ) → BinaryTest → World → Run (Searched × World)
search_text o path buf leave w = done (skipped, w)
search_text o path buf t w = then_run (all_matches o buf) (λ (n, matches).
    then_run
      (report o path buf t matches n (record w { stats = count_stats o (length buf) n w.stats }))
      (λ w'. done (matched n, keep_line o buf n w')))

unfoldable pub search_buf : BufOpts → (path buf : List ℕ) → World → Run (Searched × World)
search_buf o path buf w = then_run (test_binary o buf) (λ t. search_text o path buf t w)
