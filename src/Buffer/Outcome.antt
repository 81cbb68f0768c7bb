-- ===== src/Buffer/Outcome.antt =====
-- What the search of a buffer returns, and the matches of a literal query.
use the_silver_searcher.Base.{
  ℕ, ◌≤◌, ◌<◌, ◌≡◌, refl, Bool, true, false, not, ◌&&◌, List, length, if◌then◌else◌, Run, done,
  then_run, Returns, Bool-cases, inl, inr, arith,
}
use the_silver_searcher.Matcher.Occurrence.{IsFolded}
use the_silver_searcher.Search.{Match}
use the_silver_searcher.Search.Scan.{Scan}
use the_silver_searcher.Search.Whole.{setup, literal_search-Scan}
use the_silver_searcher.Binary.{is_binary}
use the_silver_searcher.Binary.Ends.{is_binary-Returns}
use the_silver_searcher.Buffer.{
  BufOpts, World, Searched, skipped, matched, BinaryTest, is_not, not_known, leave, test_binary,
  find_matches, array_of, all_matches, count_stats, report, keep_line, search_text, search_buf,
}
use the_silver_searcher.Buffer.Tested.{Tested, of_stream, as_text, left_open}
use the_silver_searcher.Buffer.Report.{Reported, report-Reported, keep_line-Reported}

module _ (o : BufOpts) (path buf : List ℕ) (w : World) where
  -- Either the buffer is left because it is binary, and nothing changes, or it is searched.
  pub data Outcome (P : ℕ × (ℕ → Match) → Type 0) : Searched → World → Type 0 where
    is_left :
        o.print.search_stream ≡ false
        → o.search_binary_files ≡ false
        → o.mmap ≡ true
        → is_binary buf (length buf) ≡ done true
        → Outcome P skipped w
    is_searched :
        (n : ℕ) (matches : ℕ → Match) (w' : World)
        → P (n, matches)
        → Reported o path buf w n matches w'
        → Outcome P (matched n) w'

  module _ (P : ℕ × (ℕ → Match) → Type 0) where
    abbrev Ends : Run (Searched × World) → Type 0
    Ends run = Returns run (λ (r, w'). Outcome P r w')

    searched :
        (t : BinaryTest)
        → Tested o buf t
        → Returns (all_matches o buf) P
        → Ends (
            then_run (all_matches o buf) (λ (n, matches).
              then_run
                (report o path buf t matches n
                  (record w { stats = count_stats o (length buf) n w.stats }))
                (λ w'. done (matched n, keep_line o buf n w'))))
    searched t tested ((n, matches), e, v) =
        let (w', e', v') = report-Reported o path buf w t n matches tested in
        rw (e, e')
          (
            (matched n, keep_line o buf n w'),
            refl,
            is_searched n matches (keep_line o buf n w') v
                (keep_line-Reported o path buf w n matches w' v'),
          )

    after_look :
        (binary : Bool)
        → Returns (all_matches o buf) P
        → o.print.search_stream ≡ false
        → (not o.search_binary_files && o.mmap) ≡ true
        → is_binary buf (length buf) ≡ done binary
        → Ends (search_text o path buf (if binary then leave else is_not) w)
    unfolding search_text
    after_look true h file tested e =
        ((skipped, w), refl, is_left file (ground (arith, tested)) (ground (arith, tested)) e)
    after_look false h file tested e = searched is_not (as_text e) h

    -- If the search for matches returns some, all that is done with them is done.
    search_buf-Outcome : Returns (all_matches o buf) P → Ends (search_buf o path buf w)
    unfolding search_buf test_binary search_text
    search_buf-Outcome h = elim (Bool-cases o.print.search_stream) [
      | inl stream ↦ simp (stream) (searched is_not (of_stream stream) h)
      | inr file ↦ elim (Bool-cases (not o.search_binary_files && o.mmap)) [
        | inl tested ↦
            let (binary, e, _) = is_binary-Returns buf (length buf) in
            simp (file, tested, e) (after_look binary h file tested e)
        | inr other ↦ simp (file, other) (searched not_known left_open h)
      ]
    ]

-- The matches of a literal query.
abbrev pub AreScanned : BufOpts → (buf : List ℕ) → ℕ × (ℕ → Match) → Type 0
AreScanned o buf (n, matches) =
    (ms : List Match) × Scan o.query.case_insensitive o.query.query (setup o.query buf) 0 0 ms
    × (n ≡ length ms)
    × (matches ≡ array_of ms)

pub all_matches-AreScanned :
    (o : BufOpts) (buf : List ℕ)
    → o.literal ≡ true
    → o.query.invert_match ≡ false
    → 0 < length o.query.query
    → length o.query.query ≤ 16384
    → IsFolded o.query.case_insensitive o.query.query (length o.query.query)
    → Returns (all_matches o buf) (AreScanned o buf)
unfolding all_matches find_matches
all_matches-AreScanned o buf literal plain pos short folded =
    let (f, e, (scan, _)) = literal_search-Scan o.query buf pos short folded in
    let found : all_matches o buf ≡ done (length f.matches, array_of f.matches) =
      simp (literal, plain, e) refl in
    ((length f.matches, array_of f.matches), found, (f.matches, scan, refl, refl))

-- For a literal query of 1 to 16384 bytes, in lower case if case is ignored, without inversion, the search of
-- a buffer returns. It leaves the buffer as binary and changes nothing, only where it is no stream and the
-- tests for binary files are on; else it returns the number of the matches, which are the occurrences from
-- left to right up to the limit, adds to the statistics if they are asked for, sets `match_found` exactly if
-- something is shown, and writes the path, the number, the lines or that a binary file matches as the options ask
-- for, the line of a stream that is passed on, or nothing.
pub search_buf-literal :
    (o : BufOpts) (path buf : List ℕ) (w : World)
    → o.literal ≡ true
    → o.query.invert_match ≡ false
    → 0 < length o.query.query
    → length o.query.query ≤ 16384
    → IsFolded o.query.case_insensitive o.query.query (length o.query.query)
    → Returns (search_buf o path buf w) (λ (r, w'). Outcome o path buf w (AreScanned o buf) r w')
search_buf-literal o path buf w literal plain pos short folded =
    search_buf-Outcome o path buf w (AreScanned o buf)
      (all_matches-AreScanned o buf literal plain pos short folded)
