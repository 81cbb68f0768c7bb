-- ===== src/Buffer/Tested.antt =====
-- What the test for binary files in `search_buf` rests on, and the numbers that it adds to.
use the_silver_searcher.Base.{
  ℕ, ◌+◌, ◌<◌, ◌≡◌, refl, Bool, true, false, not, ◌&&◌, List, ◌⊎◌, length, lt→ltb, if◌then◌else◌,
  done, Bool-cases, inl, inr, arith,
}
use the_silver_searcher.Binary.{is_binary}
use the_silver_searcher.Binary.Ends.{is_binary-Returns}
use the_silver_searcher.Buffer.{
  BufOpts, Stats, BinaryTest, is_not, not_known, leave, test_binary, count_stats, settle_binary,
}

module _ (o : BufOpts) (buf : List ℕ) where
  -- What the tests for binary files rest on: those of a stream are off, and the file has been looked at, or has not.
  pub data Tested : BinaryTest → Type 0 where
    of_stream : o.print.search_stream ≡ true → Tested is_not
    as_text : is_binary buf (length buf) ≡ done false → Tested is_not
    as_binary : is_binary buf (length buf) ≡ done true → Tested leave
    left_open : Tested not_known

  pub data Evidence : Bool → Type 0 where
    textual :
        (o.print.search_stream ≡ true) ⊎ (is_binary buf (length buf) ≡ done false) → Evidence false
    of_binary : is_binary buf (length buf) ≡ done true → Evidence true

  test_binary-looked :
      (b : Bool) → is_binary buf (length buf) ≡ done b → Tested (if b then leave else is_not)
  test_binary-looked true e = as_binary e
  test_binary-looked false e = as_text e

  pub test_binary-Tested : (t : BinaryTest) × (test_binary o buf ≡ done t) × Tested t
  unfolding test_binary
  test_binary-Tested = elim (Bool-cases o.print.search_stream) [
    | inl stream ↦ (is_not, simp stream refl, of_stream stream)
    | inr file ↦ elim (Bool-cases (not o.search_binary_files && o.mmap)) [
      | inl tested ↦
          let (b, e, _) = is_binary-Returns buf (length buf) in
          (if b then leave else is_not, simp (file, tested, e) refl, test_binary-looked b e)
      | inr off ↦ (not_known, simp (file, off) refl, left_open)
    ]
  ]

  Evidence-of : (b : Bool) → is_binary buf (length buf) ≡ done b → Evidence b
  Evidence-of true e = of_binary e
  Evidence-of false e = textual (inr e)

  pub settle_binary-Evidence :
      (t : BinaryTest)
      → Tested t
      → (b : Bool) × (settle_binary o buf t ≡ done b) × (o.print_filename_only ≡ false → Evidence b)
  unfolding settle_binary
  settle_binary-Evidence _ (of_stream e) = (false, refl, λ shows. textual (inl e))
  settle_binary-Evidence _ (as_text e) = (false, refl, λ shows. textual (inr e))
  settle_binary-Evidence _ (as_binary e) = (true, refl, λ shows. of_binary e)
  settle_binary-Evidence _ left_open = elim (Bool-cases o.print_filename_only) [
    | inl only ↦ (true, simp only refl, λ shows. absurd (ground (arith, only, shows)))
    | inr off ↦
        let (b, e, _) = is_binary-Returns buf (length buf) in
        (b, simp off e, λ shows. Evidence-of b e)
  ]

  -- The numbers that a search of `n` matches adds to.
  pub record Counted (n : ℕ) (before after : Stats) : Type 0 where
    pub on :
        o.stats ≡ true
        → (after.total_bytes ≡ before.total_bytes + length buf)
          × (after.total_files ≡ before.total_files + 1)
          × (after.total_matches ≡ before.total_matches + n)
          × (0 < n → after.total_file_matches ≡ before.total_file_matches + 1)
          × (n ≡ 0 → after.total_file_matches ≡ before.total_file_matches)
    pub off : o.stats ≡ false → after ≡ before

  pub count_stats-Counted : (n : ℕ) (s : Stats) → Counted n s (count_stats o (length buf) n s)
  unfolding count_stats
  count_stats-Counted n s = elim (Bool-cases o.stats) [
    | inl on ↦ rw on (record {
      on = λ e. (refl, refl, refl, λ some_match. rw (lt→ltb 0 n some_match) refl, λ e'. rw e' refl);
      off = λ e. absurd (ground (arith, e));
    })
    | inr off ↦ rw off (record { on = λ e. absurd (ground (arith, e)); off = λ e. refl })
  ]
