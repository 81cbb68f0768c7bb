-- ===== src/Buffer/Steady.antt =====
-- What the search of a buffer or of a stream finds does not depend on what has been found before.
use mathlib.Core.Bool.{or-false}
use the_silver_searcher.Base.{
  ℕ, ◌≤◌, ◌<◌, ◌≡◌, refl, sym, ap, ◌∙◌, Bool, true, false, ◌||◌, List, [], ◌∷◌, length, Run, done,
  then_run,
}
use the_silver_searcher.Matcher.Occurrence.{IsFolded}
use the_silver_searcher.Search.{Match}
use the_silver_searcher.Print.{print_init_context}
use the_silver_searcher.Buffer.{
  BufOpts, World, Searched, skipped, matched, BinaryTest, is_not, not_known, leave, all_matches,
  count_stats, is_shown, report, keep_line, search_text, search_buf,
}
use the_silver_searcher.Buffer.Tested.{Tested, test_binary-Tested}
use the_silver_searcher.Buffer.Report.{report-Reported, keep_line-Reported}
use the_silver_searcher.Buffer.Outcome.{all_matches-AreScanned}
use the_silver_searcher.Buffer.Stream.{add_result, stream_loop, search_stream}
use the_silver_searcher.Buffer.Stream.Count.{behind}

-- Whatever has been found before, the run returns `result`, and what is found is found before or by it.
pub record Steady (run : World → Run (Searched × World)) : Type 0 where
  pub result : Searched
  pub finds : Bool
  pub runs :
      (w : World)
      → (w' : World) × (run w ≡ done (result, w')) × (w'.match_found ≡ (w.match_found || finds))

pub or_assoc : (a b c : Bool) → ((a || b) || c) ≡ (a || (b || c))
or_assoc true b c = refl
or_assoc false b c = refl

module _ (o : BufOpts) (path : List ℕ) (literal : o.literal ≡ true)
    (plain : o.query.invert_match ≡ false) (some_byte : 0 < length o.query.query)
    (short : length o.query.query ≤ 16384)
    (folded : IsFolded o.query.case_insensitive o.query.query (length o.query.query)) where
  counted-Steady :
      (buf : List ℕ) (t : BinaryTest) (n : ℕ) (matches : ℕ → Match)
      → Tested o buf t
      → all_matches o buf ≡ done (n, matches)
      → Steady (λ w. then_run (all_matches o buf) (λ (n, matches).
        then_run
          (report o path buf t matches n
            (record w { stats = count_stats o (length buf) n w.stats }))
          (λ w'. done (matched n, keep_line o buf n w'))))
  counted-Steady buf t n matches tested e = record {
    result = matched n;
    finds = is_shown o n;
    runs = λ w.
        let (w', e', v) = report-Reported o path buf w t n matches tested in
        (
          keep_line o buf n w',
          simp (e, e') refl,
          (keep_line-Reported o path buf w n matches w' v).found,
        );
  }

  search_text-Steady :
      (buf : List ℕ) (t : BinaryTest) → Tested o buf t → Steady (search_text o path buf t)
  unfolding search_text
  search_text-Steady buf leave tested = record {
    result = skipped;
    finds = false;
    runs = λ w. (w, refl, sym (or-false w.match_found));
  }
  search_text-Steady buf is_not tested =
      let ((n, matches), e, _) =
        all_matches-AreScanned o buf literal plain some_byte short folded in
      counted-Steady buf is_not n matches tested e
  search_text-Steady buf not_known tested =
      let ((n, matches), e, _) =
        all_matches-AreScanned o buf literal plain some_byte short folded in
      counted-Steady buf not_known n matches tested e

  pub search_buf-Steady : (buf : List ℕ) → Steady (search_buf o path buf)
  unfolding search_buf
  search_buf-Steady buf =
      let (t, e, tested) = test_binary-Tested o buf in
      let s = search_text-Steady buf t tested in
      record { result = s.result; finds = s.finds; runs = λ w. simp e (s.runs w) }

  stream_loop-Steady :
      (lines : List (List ℕ)) (matches_count : Searched)
      → Steady (stream_loop o path lines matches_count)
  unfolding stream_loop
  stream_loop-Steady [] matches_count = record {
    result = matches_count;
    finds = false;
    runs = λ w. (w, refl, sym (or-false w.match_found));
  }
  stream_loop-Steady (line ∷ lines) matches_count =
      let s = search_buf-Steady line in
      let t = stream_loop-Steady lines (add_result matches_count s.result) in
      record {
        result = t.result;
        finds = s.finds || t.finds;
        runs = λ w.
            let (w', e, found) = s.runs w in
            let (w'', e', found') = t.runs (behind o path line w') in
            (
              w'',
              simp e e',
              found' ∙ ap (λ b. b || t.finds) found ∙ or_assoc w.match_found s.finds t.finds,
            );
      }

  pub search_stream-Steady : (lines : List (List ℕ)) → Steady (search_stream o path lines)
  unfolding search_stream
  search_stream-Steady lines =
      let s = stream_loop-Steady lines (matched 0) in
      record {
        result = s.result;
        finds = s.finds;
        runs = λ w. s.runs (record w { printer = print_init_context w.printer });
      }
