-- ===== src/Buffer/Stream.antt =====
-- `search_stream` of src/search.c: the lines of a stream are searched one by one.
pub mod Count
use the_silver_searcher.Base.{
  ℕ, ◌+◌, ◌-◌, Bool, true, false, List, [], ◌∷◌, at, length, ltb, ◌==◌, if◌then◌else◌, Run, done,
  then_run,
}
use the_silver_searcher.Print.{print_init_context, print_trailing_context}
use the_silver_searcher.Buffer.{BufOpts, World, Searched, skipped, matched, search_buf}

-- `matches_count` behind a line with the given result.
unfoldable pub add_result : (matches_count result : Searched) → Searched
add_result skipped skipped = skipped
add_result skipped (matched r) = if ltb 0 r then matched r else skipped
add_result (matched n) skipped = if n == 0 then skipped else matched n
add_result (matched n) (matched r) = matched (n + r)

-- The length of a line without its end.
abbrev pub without_newline : (line : List ℕ) → ℕ
without_newline line = if at line (length line - 1) == b'\n' then length line - 1 else length line

-- `lines` is what `getline` gives, each with its end.
unfoldable pub stream_loop :
    BufOpts
    → (path : List ℕ) → (lines : List (List ℕ)) → (matches_count : Searched) → World
    → Run (Searched × World)
stream_loop o path [] matches_count w = done (matches_count, w)
stream_loop o path (line ∷ lines) matches_count w =
    then_run (search_buf o path line w) (λ (result, w').
      stream_loop o path lines (add_result matches_count result) (record w' {
        printer = print_trailing_context o.print path line 0 (without_newline line) w'.printer;
      }))

-- The context is a new one.
unfoldable pub search_stream :
    BufOpts → (path : List ℕ) → (lines : List (List ℕ)) → World → Run (Searched × World)
search_stream o path lines w =
    stream_loop o path lines (matched 0) (record w { printer = print_init_context w.printer })
