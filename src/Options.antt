-- ===== src/Options.antt =====
-- src/options.c: the defaults, and the rules by which one option changes others.
pub mod Settled
pub mod Config
pub mod Paths
pub mod FileRegex
mod Examples
use the_silver_searcher.Base.{ℕ, Bool, true, false, not, ◌&&◌, ◌||◌, ltb, ◌==◌, if◌then◌else◌}
use the_silver_searcher.Print.{PathPrint, is_mode}

-- The options of `cli_options` that the rules read or change, and the local variables `group`, `needs_query`
-- and `accepts_query`. `print_line_numbers` is 2 where the numbers are asked for.
pub record Settings : Type 0 where
  pub ackmate : Bool
  pub after : ℕ
  pub before : ℕ
  pub context : ℕ
  pub color : Bool
  pub invert_match : Bool
  pub match_files : Bool
  pub parallel : Bool
  pub print_break : Bool
  pub print_count : Bool
  pub print_filename_only : Bool
  pub print_nonmatching_files : Bool
  pub print_path : PathPrint
  pub print_line_numbers : ℕ
  pub search_all_files : Bool
  pub search_binary_files : Bool
  pub search_hidden_files : Bool
  pub search_stream : Bool
  pub stats : Bool
  pub vimgrep : Bool
  pub group : Bool
  pub needs_query : Bool
  pub accepts_query : Bool

-- `init_options`, and the local variables at the start of `parse_options`.
unfoldable pub init_options : (is_dumb : Bool) → Settings
init_options is_dumb = record {
  ackmate = false;
  after = 0;
  before = 0;
  context = 0;
  color = not is_dumb;
  invert_match = false;
  match_files = false;
  parallel = false;
  print_break = true;
  print_count = false;
  print_filename_only = false;
  print_nonmatching_files = false;
  print_path = PathPrint.default;
  print_line_numbers = 1;
  search_all_files = false;
  search_binary_files = false;
  search_hidden_files = false;
  search_stream = false;
  stats = false;
  vimgrep = false;
  group = true;
  needs_query = true;
  accepts_query = true;
}

-- `when` a flag is given, what it sets.
abbrev pub when : Bool → (Settings → Settings) → Settings → Settings
when b f s = if b then f s else s

-- The input is a pipe or a file; the output is a terminal.
unfoldable pub by_terminal : (has_input is_terminal : Bool) → Settings → Settings
by_terminal has_input is_terminal s =
    let read = when has_input (λ (t : Settings). record t { search_stream = true }) s in
    when (not is_terminal) (λ (t : Settings). record t { color = false; group = false }) read

-- The options that dropt leaves in local variables.
pub record Flags : Type 0 where
  pub all_types : Bool
  pub count : Bool
  pub filename : Bool
  pub nofilename : Bool
  pub stats_only : Bool
  pub inverts : Bool
  pub unrestricted : Bool
  pub files_with_matches : Bool
  pub files_without_matches : Bool
  pub lists_files : Bool

-- The rules for `all_types` and `count`.
abbrev pub early_flags : Flags → Settings → Settings
early_flags f s0 =
    let s1 =
      when f.all_types
        (λ (s : Settings). record s { search_all_files = true; search_binary_files = true }) s0 in
    when f.count (λ (s : Settings). record s { print_count = true; print_filename_only = true }) s1

abbrev pub filename_flag : Flags → Settings → Settings
filename_flag f =
    when f.filename
      (λ (s : Settings). record s { print_path = PathPrint.default; print_line_numbers = 1 })

abbrev pub nofilename_flag : Flags → Settings → Settings
nofilename_flag f =
    when f.nofilename
      (λ (s : Settings). record s { print_path = PathPrint.nothing; print_line_numbers = 0 })

-- The rules for the flags, in their order.
unfoldable pub apply_flags : Flags → Settings → Settings
apply_flags f s0 =
    let s4 = nofilename_flag f (filename_flag f (early_flags f s0)) in
    let s5 =
      when f.stats_only
        (λ (s : Settings). record s {
          print_filename_only = true;
          print_path = PathPrint.nothing;
          stats = true;
        })
        s4 in
    let s6 =
      when f.inverts (λ (s : Settings). record s { invert_match = true; color = false }) s5 in
    let s7 =
      when f.unrestricted
        (λ (s : Settings). record s {
          search_binary_files = true;
          search_all_files = true;
          search_hidden_files = true;
        })
        s6 in
    let s8 =
      when f.files_with_matches
        (λ (s : Settings). record s {
          needs_query = false;
          print_filename_only = true;
          print_path = PathPrint.top;
        })
        s7 in
    let s9 =
      when f.files_without_matches
        (λ (s : Settings). record s { print_nonmatching_files = true; print_path = PathPrint.top })
        s8 in
    when f.lists_files
      (λ (s : Settings). record s {
        needs_query = false;
        accepts_query = false;
        match_files = true;
      })
      s9

-- `group` decides where nothing else has set how paths are printed.
abbrev pub by_group : Settings → Settings
by_group s =
    if not (not (is_mode s.print_path PathPrint.default) || not s.print_break)
    then if s.group
      then record s { print_break = true }
      else record s { print_path = PathPrint.default_each_line; print_break = false }
    else s

-- The rules behind the test for a query.
unfoldable pub settle_output : Settings → Settings
settle_output s0 =
    let s1 =
      when (ltb 0 s0.context) (λ (s : Settings). record s { before = s.context; after = s.context })
        s0 in
    let s2 =
      when s1.ackmate
        (λ (s : Settings). record s {
          color = false;
          print_break = true;
          group = true;
          search_stream = false;
        })
        s1 in
    let s3 =
      when s2.vimgrep
        (λ (s : Settings). record s {
          color = false;
          print_break = false;
          group = true;
          search_stream = false;
          print_path = PathPrint.nothing;
        })
        s2 in
    let s4 = when s3.parallel (λ (s : Settings). record s { search_stream = false }) s3 in
    let s5 = by_group s4 in
    when s5.search_stream
      (λ (s : Settings). record s {
        print_break = false;
        print_path = PathPrint.nothing;
        print_line_numbers = if not (s.print_line_numbers == 2) then 0 else s.print_line_numbers;
      })
      s5
