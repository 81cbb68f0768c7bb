-- ===== src/Buffer/File.antt =====
-- `search_file` of src/search.c on a Unix with `fopencookie`: which files are searched, as a buffer or a stream.
pub mod Skip
pub mod Read
pub mod Steady
use the_silver_searcher.Base.{
  ℕ, zero, suc, ◌+◌, Bool, true, false, not, ◌&&◌, ◌||◌, Option, none, some, List, [], ◌∷◌, ◌++◌,
  at, take, drop, length, ltb, ◌==◌, if◌then◌else◌, Run, done, out_of_fuel, then_run,
}
use the_silver_searcher.Binary.{is_binary}
use the_silver_searcher.Zip.{Compression, is_zipped}
use the_silver_searcher.Print.{print_init_context, print_path}
use the_silver_searcher.Buffer.{BufOpts, World, Searched, skipped, matched, search_buf}
use the_silver_searcher.Buffer.Stream.{search_stream}

-- The kind of a file by `st_mode`.
pub data Kind : Type 0 where
  regular fifo other : Kind

abbrev pub is_fifo : Kind → Bool
is_fifo fifo = true
is_fifo _ = false

abbrev pub is_other : Kind → Bool
is_other other = true
is_other _ = false

-- `struct stat`
pub record Stat : Type 0 where
  pub st_ino : ℕ
  pub kind : Kind
  pub st_size : ℕ

-- What reading a compressed file as a stream of the C library gives, whose reads are those of `zfile_read`: all lines
-- up to its end or an error, or some of them and then the end of the program, by `exit` or `assert` in `zfile_read`.
-- For NULL the stream cannot be opened.
pub data Unzipped : Type 0 where
  null : Unzipped
  whole : List (List ℕ) → Unzipped
  cut : List (List ℕ) → Unzipped

-- A file as the system calls show it: `stat`, `open`, `fstat`, `mmap` by the length that is asked for, the bytes
-- that it holds, how many of them a call of `read` gives from a position on by the number that is asked for, and
-- the lines of a pipe. The calls of `read` do not fail. `memory` is what `malloc` gives, and `decompressed` what
-- `decompress_open` and `getline` make of a file of a kind that they support, from a position on.
pub record FileView : Type 0 where
  pub path : List ℕ
  pub stat : Option Stat
  pub opens : Bool
  pub fstat : Option Stat
  pub mmap : (f_len : ℕ) → Option (List ℕ)
  pub contents : List ℕ
  pub read : (from size : ℕ) → ℕ
  pub memory : List ℕ
  pub lines : List (List ℕ)
  pub decompressed : Compression → (position : ℕ) → Unzipped

pub record FileOpts : Type 0 where
  pub buf : BufOpts
  pub stdout_inode : ℕ
  pub search_all_files : Bool
  pub search_zip_files : Bool
  pub have_zlib : Bool
  pub have_lzma : Bool

-- The tests on what `stat` and `fstat` give: 0 as an inode of the standard output means that it is none.
unfoldable pub is_refused : FileOpts → Option Stat → Bool
is_refused o none = true
is_refused o (some s) = (not (o.stdout_inode == 0) && o.stdout_inode == s.st_ino) || is_other s.kind

abbrev pub is_empty_query_file : FileOpts → Bool
is_empty_query_file o =
    at o.buf.query.query 0 == b'.'
    && length o.buf.query.query == 1
    && not o.buf.literal
    && o.search_all_files

-- How a search ends: with what it gives, or with the program, by `die`, by `exit` or since it crashes.
abbrev pub Ending : Type 0
Ending = Option (Searched × World)

abbrev pub ended : Run (Searched × World) → Run Ending
ended run = then_run run (λ r. done (some r))

-- The loop that reads a file, with `bytes_read` behind it; each call asks for `f_len` bytes.
unfoldable pub read_loop : (read : ℕ → ℕ → ℕ) (f_len fuel bytes_read : ℕ) → Run ℕ
read_loop read f_len zero bytes_read = out_of_fuel
read_loop read f_len (suc fuel) bytes_read =
    let again = read_loop read f_len fuel (bytes_read + read bytes_read f_len) in
    if ltb bytes_read f_len then again else done bytes_read

abbrev pub no_zip : Compression → Bool
no_zip Compression.no_compression = true
no_zip _ = false

-- `decompress_open`: it gives NULL for a file of another kind than gzip and xz.
unfoldable pub unzip : FileView → Compression → (position : ℕ) → Unzipped
unzip f Compression.gzip position = f.decompressed Compression.gzip position
unzip f Compression.xz position = f.decompressed Compression.xz position
unzip f _ position = null

-- NULL is read from all the same, which crashes.
unfoldable pub search_unzipped : FileOpts → FileView → Unzipped → World → Run Ending
search_unzipped o f null w = done none
search_unzipped o f (whole lines) w = ended (search_stream o.buf f.path lines w)
search_unzipped o f (cut lines) w = then_run (search_stream o.buf f.path lines w) (λ r. done none)

-- A file that is mapped or read, as `buf`; `position` is where the file stands.
unfoldable pub search_contents :
    FileOpts → FileView → (position : ℕ) (buf : List ℕ) → World → Run Ending
search_contents o f position buf w =
    let zip_type = is_zipped o.have_zlib o.have_lzma buf (length buf) in
    if o.search_zip_files && not (no_zip zip_type)
    then search_unzipped o f (unzip f zip_type position) w
    else ended (search_buf o.buf f.path buf w)

-- The rest of a file is read; the file stands behind what has been read.
unfoldable pub read_rest : FileOpts → FileView → (f_len bytes_read : ℕ) → World → Run Ending
read_rest o f f_len bytes_read w =
    then_run (read_loop f.read f_len (f_len + 1) bytes_read)
      (λ n. if n == f_len then search_contents o f n (take n f.contents) w else done none)

-- The memory behind the first `n` bytes of the file; what is behind them is as `malloc` gave it.
abbrev pub filled : FileView → (n : ℕ) → List ℕ
filled f n = take n f.contents ++ drop n f.memory

abbrev pub first_piece : (f_len : ℕ) → ℕ
first_piece f_len = if ltb 512 f_len then 512 else f_len

unfoldable pub search_mapped : FileOpts → FileView → Option (List ℕ) → World → Run Ending
search_mapped o f none w = done (some (skipped, w))
search_mapped o f (some buf) w = search_contents o f 0 buf w

-- The file is mapped, or it is read, where its first bytes may show that it is binary.
unfoldable pub load : FileOpts → FileView → (f_len : ℕ) → World → Run Ending
load o f f_len w =
    let n = f.read 0 (first_piece f_len) in
    let tested : Run Ending =
      then_run (is_binary (filled f n) f_len)
        (λ binary. if binary then done (some (skipped, w)) else read_rest o f f_len n w) in
    if o.buf.mmap
    then search_mapped o f (f.mmap f_len) w
    else if not o.buf.search_binary_files
    then tested
    else read_rest o f f_len 0 w

-- Behind the tests, with a new context.
unfoldable pub search_open : FileOpts → FileView → Stat → World → Run Ending
search_open o f s w =
    let piped = ended (search_stream o.buf f.path f.lines w) in
    let empty = ended (search_buf o.buf f.path [] w) in
    let loaded = load o f s.st_size w in
    if is_fifo s.kind
    then piped
    else if s.st_size == 0
    then if is_empty_query_file o then empty else done (some (skipped, w))
    else loaded

unfoldable pub search_stat : FileOpts → FileView → Option Stat → World → Run Ending
search_stat o f none w = done (some (skipped, w))
search_stat o f (some s) w =
    let opened = search_open o f s (record w { printer = print_init_context w.printer }) in
    if is_refused o (some s) then done (some (skipped, w)) else opened

-- `matches_count`, -1 as long as the file is not searched.
unfoldable pub find_in_file : FileOpts → FileView → World → Run Ending
find_in_file o f w =
    let again = search_stat o f f.fstat w in
    if is_refused o f.stat || not f.opens then done (some (skipped, w)) else again

abbrev pub has_none : Searched → Bool
has_none skipped = false
has_none (matched n) = n == 0

-- The end of the search, where a file without a match may be printed.
unfoldable pub cleanup : FileOpts → FileView → Ending → Option World
cleanup o f none = none
cleanup o f (some (result, w)) =
    if o.buf.print_nonmatching_files && has_none result
    then some (record w {
      printer = print_path o.buf.print f.path o.buf.print.path_sep w.printer;
      match_found = true;
    })
    else some w

unfoldable pub search_file : FileOpts → FileView → World → Run (Option World)
search_file o f w = then_run (find_in_file o f w) (λ r. done (cleanup o f r))
