-- ===== src/Buffer/Examples.antt =====
-- Runs of the search of buffers, streams and files, and its theorems at an input.
use mathlib.Core.Path.{subst}
use the_silver_searcher.Base.{
  ℕ, ◌-◌, ◌≡◌, refl, ap, true, false, Option, none, some, List, [], ◌∷◌, done, Returns, arith, inl,
  inr,
}
use the_silver_searcher.Base.Chars.{isascii, isupper, tolower}
use the_silver_searcher.Base.Bytes.{has_any, has_char}
use the_silver_searcher.Matcher.Tables.{generate_alpha_skip, generate_find_skip}
use the_silver_searcher.Matcher.BoyerMoore.{boyer_moore_strnstr}
use the_silver_searcher.Matcher.HashTable.{
  generate_hash, hash_loop, caps_loop, put_entry, free_cell, hash_of,
}
use the_silver_searcher.Search.{is_full, push}
use the_silver_searcher.Search.Literal.{on_match, on_result, literal_loop}
use the_silver_searcher.Search.Whole.{Query, literal_search}
use the_silver_searcher.Binary.{look, judge, binary_loop, is_binary}
use the_silver_searcher.Zip.{is_zipped, zip_or_xz}
use the_silver_searcher.Print.{
  PathPrint, Printer, PrintOpts, text, char, print_init_context, print_path, path_pieces,
  normalize_path,
}
use the_silver_searcher.Buffer.{
  BufOpts, World, Searched, test_binary, find_matches, all_matches, count_stats, report, keep_line,
  search_text, search_buf,
}
use the_silver_searcher.Mode.{
  Casing, Args, Prepared, prepare, query_of, prepare_query, ready, is_regex, casing_of,
  is_lowercase,
}
use the_silver_searcher.Buffer.Prepared.{with_query, search_buf-prepared}
use the_silver_searcher.Buffer.Outcome.{AreScanned, Outcome}
use the_silver_searcher.Buffer.Stream.{search_stream}
use the_silver_searcher.Buffer.Stream.Count.{
  Searches, verdict, has_skipped, total, search_stream-literal,
}
use the_silver_searcher.Buffer.File.{
  Kind, Stat, FileView, FileOpts, null, is_refused, search_contents, search_mapped, load,
  search_open, search_stat, find_in_file, cleanup, search_file,
}
use the_silver_searcher.Buffer.File.Read.{IsSound, GoesOn, search_file-GoesOn}
use the_silver_searcher.Buffer.File.Skip.{
  Result, is_output, search_file-refused, search_file-Result,
}

abbrev plain_output : PrintOpts
plain_output = record {
  ackmate = false;
  vimgrep = false;
  color = false;
  color_path = [];
  color_match = [];
  color_line_number = [];
  after = 0;
  before = 0;
  context = 0;
  width = 0;
  column = false;
  only_matching = false;
  path_sep = b'\n';
  print_break = true;
  print_count = false;
  print_line_numbers = true;
  search_stream = false;
}

abbrev query_b : Query
query_b = record {
  query = b'b' ∷ [];
  case_insensitive = false;
  word_regexp = false;
  max_matches_per_file = 0;
  invert_match = false;
  fresh = λ _. 0;
  is_x86 = true;
}

-- The files without a "b" are listed.
abbrev without_b : BufOpts
without_b = record {
  search_binary_files = false;
  mmap = true;
  literal = true;
  multiline = true;
  stats = true;
  print_nonmatching_files = true;
  print_all_paths = false;
  print_filename_only = false;
  passthrough = false;
  query = query_b;
  re = λ text len. none;
  print = plain_output;
}

abbrev no_output : Printer
no_output = record {
  out = [];
  first_file_match = true;
  print_path = PathPrint.default;
  line = 1;
  context_prev_lines = λ i. none;
  last_prev_line = 0;
  prev_line_offset = 0;
  line_preceding_current_match_offset = 0;
  lines_since_last_match = 0;
  last_printed_match = 0;
  in_a_match = false;
  printing_a_match = false;
}

abbrev pub at_begin : World
at_begin = record {
  printer = no_output;
  stats = record { total_bytes = 0; total_files = 0; total_matches = 0; total_file_matches = 0 };
  match_found = false;
}

abbrev pub abb : List ℕ
abb = b'a' ∷ b'b' ∷ b'b' ∷ []

abbrev name : List ℕ
name = b'f' ∷ []

search_stream-literal_example :
    Returns (search_stream without_b name (abb ∷ name ∷ []) at_begin) (λ (r, w').
      (rs : List Searched) × Searches without_b name
        (abb ∷ name ∷ [])
        (record at_begin { printer = print_init_context at_begin.printer })
        rs
        w'
      × (r ≡ verdict (has_skipped rs) (total rs)))
search_stream-literal_example =
    search_stream-literal without_b name refl refl (omega arith) (omega arith) (λ t h. refl)
      (abb ∷ name ∷ []) at_begin

abbrev pub files : FileOpts
files = record {
  buf = without_b;
  stdout_inode = 7;
  search_all_files = false;
  search_zip_files = false;
  have_zlib = true;
  have_lzma = true;
}

abbrev size_of : Option Stat → ℕ
size_of none = 0
size_of (some s) = s.st_size

abbrev status : Stat
status = record { st_ino = 3; kind = Kind.regular; st_size = 3 }

abbrev pub file : List ℕ → FileView
file contents = record {
  path = name;
  stat = some status;
  opens = true;
  fstat = some status;
  mmap = λ f_len. some contents;
  contents = contents;
  read = λ from size. 3 - from;
  memory = [];
  lines = [];
  decompressed = λ c position. null;
}

pub abb-IsSound : (s : Stat) → some status ≡ some s → IsSound files (file abb) s.st_size
unfolding is_zipped zip_or_xz
abb-IsSound s e = subst (IsSound files (file abb)) (ap size_of e) (record {
  reads = λ from lt. (omega (arith, lt), omega (arith, lt));
  first = refl;
  unzips_mapped = λ buf on e'. inl refl;
  unzips_read = λ off. inl refl;
})

search_file-GoesOn_example : GoesOn (search_file files (file abb) at_begin)
search_file-GoesOn_example =
    search_file-GoesOn files (file abb) refl refl (omega arith) (omega arith) (λ t h. refl) at_begin
      abb-IsSound

search_file-Result_example :
    Returns
      (search_file files (file abb) at_begin)
      (λ r. (w' : World) × (r ≡ some w') × Result files (file abb) at_begin w')
unfolding is_refused is_zipped zip_or_xz
search_file-Result_example =
    search_file-Result files (file abb) at_begin status
      (record {
        accepted = refl;
        opened = refl;
        status = refl;
        same = refl;
        is_regular = refl;
        filled = refl;
        mapped = refl;
        maps = refl;
        unzipped = refl;
      })
      refl refl refl refl (omega arith) (omega arith) (λ t h. refl)

-- The file that the output goes to.
abbrev output : FileView
output = record (file abb) { fstat = some (record status { st_ino = 7 }) }

search_file-refused_example : search_file files output at_begin ≡ done (some at_begin)
search_file-refused_example =
    search_file-refused files output at_begin (inr (inr (is_output _ (omega arith) refl)))

-- A file without a "b" is printed, and found.
list_aaa :
    search_file files (file (b'a' ∷ b'a' ∷ b'a' ∷ [])) at_begin
    ≡ done (
        some (record {
          printer = record (print_init_context no_output) { out = text name ∷ char b'\n' ∷ [] };
          stats = record {
            total_bytes = 3;
            total_files = 1;
            total_matches = 0;
            total_file_matches = 0;
          };
          match_found = true;
        }))
unfolding search_file find_in_file search_stat search_open load search_mapped search_contents
    cleanup is_refused is_zipped zip_or_xz search_buf test_binary search_text all_matches
    find_matches report keep_line count_stats is_binary binary_loop judge look literal_search
    generate_hash hash_loop caps_loop put_entry free_cell hash_of literal_loop on_result on_match
    is_full push boyer_moore_strnstr generate_alpha_skip generate_find_skip tolower print_path
    path_pieces normalize_path print_init_context
list_aaa = refl

-- `ag aB`
abbrev args : Args
args = record {
  needs_query = true;
  accepts_query = true;
  argument = some (b'a' ∷ b'B' ∷ []);
  literal = false;
  casing = Casing.default;
}

abbrev prepared : Prepared
prepared = record { query = b'a' ∷ b'B' ∷ []; literal = true; casing = Casing.sensitive }

args-prepared : prepare args ≡ some prepared
unfolding prepare query_of prepare_query ready is_regex casing_of is_lowercase has_any has_char
    isupper isascii
args-prepared = refl

search_buf-prepared_example :
    Returns (search_buf (with_query prepared without_b) name abb at_begin) (λ (r, w').
      Outcome
        (with_query prepared without_b)
        name
        abb
        at_begin
        (AreScanned (with_query prepared without_b) abb)
        r
        w')
search_buf-prepared_example =
    search_buf-prepared args prepared without_b name abb at_begin args-prepared refl refl
      (omega arith)
