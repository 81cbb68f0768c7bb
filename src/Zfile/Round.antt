-- ===== src/Zfile/Round.antt =====
-- The ways that a round of `zfile_read` ends.
use the_silver_searcher.Base.{
  ℕ, suc, ◌-◌, ◌<◌, ◌≡◌, refl, true, false, Option, List, ◌++◌, length, ◌==◌, done, arith,
}
use the_silver_searcher.Zfile.{
  Step, goes_on, at_end, Decoded, Cookie, read, drain, fill_input, more_input, read_rounds,
}

module _ {Z : Type 0} (init : Option Z) (decode : Z → (input : List ℕ) → Decoded Z) where
  pub round-full :
      (fuel : ℕ) (total : List ℕ) (size : ℕ) (step : Step) (c : Cookie Z)
      → length (drain size c).0 ≡ size
      → read_rounds init decode (suc fuel) total size step c
        ≡ done (read (total ++ (drain size c).0), (drain size c).1)
  unfolding read_rounds
  round-full fuel total size step c full =
      let e : (size - length (drain size c).0 == 0) ≡ true = ground (arith, full) in simp e refl

  pub round-eof :
      (fuel : ℕ) (total : List ℕ) (size : ℕ) (step : Step) (c : Cookie Z)
      → length (drain size c).0 < size
      → step ≡ at_end
      → read_rounds init decode (suc fuel) total size step c
        ≡ done (read (total ++ (drain size c).0), record (drain size c).1 { eof = true })
  unfolding read_rounds
  round-eof fuel total size step c short ends =
      let e : (size - length (drain size c).0 == 0) ≡ false = ground (arith, short) in
      simp (e, ends) refl

  pub round-more :
      (fuel : ℕ) (total : List ℕ) (size : ℕ) (step : Step) (c : Cookie Z)
      → length (drain size c).0 < size
      → step ≡ goes_on
      → read_rounds init decode (suc fuel) total size step c
        ≡ more_input init decode
            (read_rounds init decode fuel
              (total ++ (drain size c).0)
              (size - length (drain size c).0))
            (drain size c).1
            (fill_input (drain size c).1)
  unfolding read_rounds
  round-more fuel total size step c short goes =
      let e : (size - length (drain size c).0 == 0) ≡ false = ground (arith, short) in
      simp (e, goes) refl
