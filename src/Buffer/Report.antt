-- ===== src/Buffer/Report.antt =====
-- What the search of a buffer leaves behind: the numbers, `match_found` and the output.
use mathlib.Core.Bool.{or-true, or-false}
use mathlib.Core.Path.{subst}
use the_silver_searcher.Base.{
  ℕ, ◌-◌, ◌≡◌, refl, sym, ap, ◌∙◌, Bool, true, false, ◌&&◌, ◌||◌, List, [], ◌∷◌, ◌++◌, ◌⊎◌, length,
  ◌==◌, done, Returns, Bool-cases, inl, inr, arith,
}
use the_silver_searcher.Search.{Match}
use the_silver_searcher.Binary.{is_binary}
use the_silver_searcher.Print.{
  Printer, Piece, text, strndup, print_context_append, print_path, print_path_count,
  print_binary_file_matches,
}
use the_silver_searcher.Print.Line.{Source}
use the_silver_searcher.Print.Matches.{print_file_matches}
use the_silver_searcher.Buffer.{
  BufOpts, World, print_found, BinaryTest, count_stats, is_shown, report, keep_line,
}
use the_silver_searcher.Buffer.Tested.{
  Tested, Evidence, textual, of_binary, settle_binary-Evidence, Counted, count_stats-Counted,
}

module _ (o : BufOpts) (path buf : List ℕ) (w : World) where
  abbrev source : (n : ℕ) (matches : ℕ → Match) → Source
  source n matches = record {
    path = path;
    buf = buf;
    buf_len = length buf;
    matches = matches;
    matches_len = n;
  }

  -- The output where the matches are shown: the path and their number, the path, the lines, or that a binary file
  -- matches.
  pub data Shown (n : ℕ) (matches : ℕ → Match) (out : List Piece) : Type 0 where
    number_only :
        o.print_filename_only ≡ true
        → o.print.print_count ≡ true
        → out ≡ (print_path_count o.print path o.print.path_sep n w.printer).out
        → Shown n matches out
    path_only :
        o.print_filename_only ≡ true
        → o.print.print_count ≡ false
        → out ≡ (print_path o.print path o.print.path_sep w.printer).out
        → Shown n matches out
    lines :
        o.print_filename_only ≡ false
        → (o.print.search_stream ≡ true) ⊎ (is_binary buf (length buf) ≡ done false)
        → out ≡ (print_file_matches o.print (source n matches) w.printer).out
        → Shown n matches out
    note :
        o.print_filename_only ≡ false
        → is_binary buf (length buf) ≡ done true
        → out ≡ (print_binary_file_matches o.print path w.printer).out
        → Shown n matches out

  -- What a search of `n` matches leaves behind.
  pub record Reported (n : ℕ) (matches : ℕ → Match) (w' : World) : Type 0 where
    pub counted : Counted o buf n w.stats w'.stats
    pub found : w'.match_found ≡ (w.match_found || is_shown o n)
    pub shown : is_shown o n ≡ true → Shown n matches w'.printer.out
    pub passed :
        is_shown o n ≡ false
        → (o.print.search_stream && o.passthrough) ≡ true
        → w'.printer.out ≡ w.printer.out ++ text (strndup buf (length buf)) ∷ []
    pub silent :
        is_shown o n ≡ false
        → (o.print.search_stream && o.passthrough) ≡ false
        → w'.printer.out ≡ w.printer.out

  print_found-Shown :
      (b : Bool) (n : ℕ) (matches : ℕ → Match)
      → (o.print_filename_only ≡ false → Evidence o buf b)
      → Shown n matches (print_found o path buf b matches n w.printer).out
  unfolding print_found
  print_found-Shown b n matches v = elim (Bool-cases o.print_filename_only) [
    | inl only ↦ elim (Bool-cases o.print.print_count) [
      | inl number ↦ number_only only number (simp (only, number) refl)
      | inr off ↦ path_only only off (simp (only, off) refl)
    ]
    | inr off ↦ by_evidence b off (v off)
  ]
    where
      by_evidence :
          (b : Bool)
          → o.print_filename_only ≡ false
          → Evidence o buf b
          → Shown n matches (print_found o path buf b matches n w.printer).out
      by_evidence _ off (textual e) = lines off e (simp off refl)
      by_evidence _ off (of_binary e) = note off e (simp off refl)

  pub report-Reported :
      (t : BinaryTest) (n : ℕ) (matches : ℕ → Match)
      → Tested o buf t
      → Returns
          (report o path buf t matches n
            (record w { stats = count_stats o (length buf) n w.stats }))
          (Reported n matches)
  unfolding report
  report-Reported t n matches tested = elim (Bool-cases (is_shown o n)) [
    | inl shown ↦
        let (b, e, v) = settle_binary-Evidence o buf t tested in
        rw (shown, e)
          (
            _,
            refl,
            record {
              counted = count_stats-Counted o buf n w.stats;
              found = sym (ap (λ b. w.match_found || b) shown ∙ or-true w.match_found);
              shown = λ on. print_found-Shown b n matches v;
              passed = λ hidden. absurd (ground (arith, shown, hidden));
              silent = λ hidden. absurd (ground (arith, shown, hidden));
            },
          )
    | inr hidden ↦
        let same = sym (ap (λ b. w.match_found || b) hidden ∙ or-false w.match_found) in
        elim (Bool-cases (o.print.search_stream && o.passthrough)) [
          | inl passed ↦
              rw (hidden, passed)
                (
                  _,
                  refl,
                  record {
                    counted = count_stats-Counted o buf n w.stats;
                    found = same;
                    shown = λ on. absurd (ground (arith, hidden, on));
                    passed = λ h p. refl;
                    silent = λ h off. absurd (ground (arith, passed, off));
                  },
                )
          | inr off ↦
              rw (hidden, off)
                (
                  _,
                  refl,
                  record {
                    counted = count_stats-Counted o buf n w.stats;
                    found = same;
                    shown = λ on. absurd (ground (arith, hidden, on));
                    passed = λ h p. absurd (ground (arith, off, p));
                    silent = λ h g. refl;
                  },
                )
        ]
  ]

  print_context_append-out :
      (p : Printer) (line : List ℕ) (len : ℕ)
      → (print_context_append o.print p line len).out ≡ p.out
  unfolding print_context_append
  print_context_append-out p line len = elim (Bool-cases (o.print.before == 0)) [
    | inl off ↦ rw off refl
    | inr on ↦ rw on refl
  ]

  pub keep_line-Reported :
      (n : ℕ) (matches : ℕ → Match) (w' : World)
      → Reported n matches w'
      → Reported n matches (keep_line o buf n w')
  unfolding keep_line
  keep_line-Reported n matches w' v = elim (Bool-cases (n == 0 && o.print.search_stream)) [
    | inl kept ↦
        let same = print_context_append-out w'.printer buf (length buf - 1) in
        rw kept (record {
          counted = v.counted;
          found = v.found;
          shown = λ on. subst (Shown n matches) (sym same) (v.shown on);
          passed = λ h p. same ∙ v.passed h p;
          silent = λ h g. same ∙ v.silent h g;
        })
    | inr off ↦ rw off v
  ]
