-- ===== src/Lib.antt =====
-- The Silver Searcher (`ag`): a model of the parts of src/ that decide which files are searched, which bytes of
-- them match and what is printed of them, with the theorems that make those parts correct.
--
-- The program walks the directories that it is given. ag_scandir (src/scandir.c) lists one directory and asks
-- filename_filter (src/ignore.c) for each entry; what is kept is put into the work queue by search_dir
-- (src/search.c), and the workers take files out, skip those that is_binary (src/util.c) takes for binary, and
-- search the others with search_buf (src/search.c), whose matches invert_matches (src/util.c) may turn over and
-- print_file_matches (src/print.c) prints.
--
-- Which file models what:
-- - Base: what the others share. Bytes are numbers from 0 to 255; a string is a list of bytes, and a read at or
--   behind its end gives 0, the terminating NUL. Base/Chars is <ctype.h> in the C locale, Base/Bytes strcmp,
--   strchr, strstr and the like.
-- - Matcher: src/util.c, generate_alpha_skip, is_prefix, suffix_len, generate_find_skip (Matcher/AlphaSkip,
--   Matcher/FindSkip, Matcher/Tables) and boyer_moore_strnstr (Matcher/BoyerMoore); generate_hash
--   (Matcher/HashTable) and hash_strnstr (Matcher/Hash), the search of x86 for queries of 3 to 254 bytes, with
--   H_SIZE as a parameter. Matcher/Occurrence says what a first occurrence is; Matcher/Agree compares the two.
-- - Names: src/util.c, binary_search.
-- - Ignore: src/ignore.c, the node of ignore patterns; Ignore/Add adds and loads patterns, Ignore/Filter decides
--   on an entry. A node's parents are the rest of a list, the chain.
-- - Search: src/search.c, search_buf. Search/Literal and Search/Whole are the loop for a literal query with its
--   set-up in src/main.c, Search/Regex the two loops for a regular expression. Search/Scan says which matches a
--   literal search has to give.
-- - Print: src/print.c. What is written is a list of bytes and numbers, and the context of a file a record with it.
--   Print/Line prints the line of a match, Print/Matches is print_file_matches, Print/Ring says what the ring of
--   the lines before a match holds.
-- - Buffer: src/search.c, search_buf as a whole; Buffer/Stream is search_stream, Buffer/File search_file. They
--   use Binary, Search, Invert, Print and Zip; Buffer/Report says what a search leaves behind, Buffer/Prepared puts
--   them together with Mode.
-- - Invert: src/util.c, invert_matches.
-- - Queue: src/search.c, the work queue and search_file_worker, with the end of src/main.c. Each step is what a
--   thread does while it holds the mutex, or the search of one file; all orders of the steps are considered.
-- - Program: src/main.c, the number of the workers, the loop over the paths, and the exit status; Program/Status
--   takes the files that the workers of Queue search in any order, and searches them with Buffer/File.
-- - Walk: src/search.c, search_dir with check_symloop_enter and check_symloop_leave. The file system is a record of
--   functions; the queue is the list of the paths put into it.
-- - Mode: src/options.c, src/util.c and src/main.c, the choice of the query, of a literal search and of the case.
-- - Options: src/options.c, the defaults and the rules by which one option changes others; Options/Config what is
--   added to the root node of the ignore patterns, Options/FileRegex the expression for the names of files,
--   Options/Paths the paths.
-- - Log: src/log.c, which messages are written, and where.
-- - Lines: src/util.c, fgetln and getline; Copy: src/util.c, strlcpy. Both are for a C library that lacks them.
-- - Zip: src/decompress.c, is_zipped.
-- - Inflate: src/decompress.c, decompress_zlib, and in Inflate/Lzma decompress_lzma and decompress, for a C library
--   without fopencookie; zlib and lzma are parameters.
-- - Zfile: src/zfile.c, a compressed file as a stream. Zfile/View says what a reader has still to see; zlib and
--   lzma are one function of their state and the input, with what they document as a record of laws.
-- - Binary: src/util.c, is_binary; Binary/Valid says what counts as text.
-- - Lang: src/lang.c, make_lang_regex and combine_file_extensions; Lang/Table is its table.
-- - Scandir: src/scandir.c, ag_scandir.
--
-- Loops that are not over a list run on fuel and give `out_of_fuel` when it is used up. The rounds that are
-- given, and why they are enough: the length of the text and one more for boyer_moore_strnstr, whose position
-- in the text grows; the length of the buffer and one more for the loops of search_buf and invert_matches,
-- whose offset grows; the bytes looked at and one more for is_binary; the limit on the depth and one more for
-- search_dir; the cells of the table for the chains of generate_hash and hash_strnstr, since a walk through
-- all cells meets a free one; the length of the text and one more for the steps and the tail of hash_strnstr;
-- the length of a file and one more for the loop that reads it, if each call reads something; more rounds than
-- there are bytes to write for decompress_zlib and decompress_lzma, and more than a stream has bytes for the
-- reading of its lines; more by two than there are bytes of input and output left for zfile_read, and one more
-- than the target offset for zfile_seek. The loops of print_file_matches are bounded by the code itself and
-- recurse on the rounds that are left. binary_search halves its range and goes by the well-founded order.
--
-- Numbers are natural numbers. Offsets stay far below 2^64, since they index buffers in memory; where the code
-- relies on wrapping, as in invert_matches on an empty buffer, it is written out.
--
-- Parameters of the model: tre_regnexec, fnmatch, stat, fstat and lstat, open, mmap and read, what malloc leaves
-- in memory that is not cleared, the lines of a stream, and what the streams of the C library make of a cookie of
-- Zfile, all its lines or some of them before the program ends, the lines of ignore files, what git prints, the environment, realpath,
-- the filter that AckMate passes, readdir and the allocator in ag_scandir, realloc and BUFSIZ in fgetln and
-- getline, inflate, lzma_code and realloc in src/decompress.c and src/zfile.c. Elsewhere memory does not run
-- out: the wrappers of src/util.c end the program then.
--
-- Not modelled: the rest of the command line (the table for dropt, colours and pager), the times of the
-- statistics, threads and their affinity, and the consoles of Windows, which are input, output or calls of
-- other libraries; read and mmap that fail in the middle of a file. The model is that of a Unix whose struct
-- dirent has d_type and whose C library has fopencookie, but for the files named above that stand in for a C
-- library; its machine, where hash_strnstr is used, stores the low byte of a pair first.
pub mod Base
pub mod Matcher
pub mod Names
pub mod Ignore
pub mod Search
pub mod Invert
pub mod Queue
pub mod Binary
pub mod Lang
pub mod Scandir
pub mod Walk
pub mod Zip
pub mod Mode
pub mod Print
pub mod Buffer
pub mod Options
pub mod Lines
pub mod Copy
pub mod Inflate
pub mod Zfile
pub mod Program
pub mod Log
