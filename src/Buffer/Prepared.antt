-- ===== src/Buffer/Prepared.antt =====
-- The search of a buffer with the options that `parse_options` and `main` have prepared: src/options.c, src/main.c
-- and src/search.c together.
use the_silver_searcher.Base.{ℕ, ◌≤◌, ◌≡◌, true, false, some, List, length, Returns}
use the_silver_searcher.Mode.{Args, Prepared, is_insensitive, prepare}
use the_silver_searcher.Mode.Ready.{prepare-IsReady}
use the_silver_searcher.Buffer.{BufOpts, World, search_buf}
use the_silver_searcher.Buffer.Outcome.{AreScanned, Outcome, search_buf-literal}

-- The options with the query that is prepared.
abbrev pub with_query : Prepared → BufOpts → BufOpts
with_query p o = record o {
  literal = p.literal;
  query = record o.query { query = p.query; case_insensitive = is_insensitive p.casing };
}

-- Whatever the arguments, if the program goes on to search for a literal query of at most 16384 bytes, without
-- inversion, the search of a buffer returns. Where the tests for binary files are on and it is no stream, the buffer
-- may be left as binary, and nothing changes; else the occurrences of the query are found and added to the numbers,
-- if these are asked for, `match_found` is set exactly if they are shown, and the output is that of the path, of the
-- path and the number, of the lines, or, for a binary file, of the note that it matches, as the options ask for; a
-- line of a stream without a match is passed on if that is asked for, and else nothing is written.
pub search_buf-prepared :
    (a : Args) (p : Prepared) (o : BufOpts) (path buf : List ℕ) (w : World)
    → prepare a ≡ some p
    → p.literal ≡ true
    → o.query.invert_match ≡ false
    → length p.query ≤ 16384
    → Returns
        (search_buf (with_query p o) path buf w)
        (λ (r, w'). Outcome (with_query p o) path buf w (AreScanned (with_query p o) buf) r w')
search_buf-prepared a p o path buf w e literal plain short =
    let v = prepare-IsReady a p e in
    search_buf-literal (with_query p o) path buf w literal plain v.some_byte short
      (v.folded literal)
