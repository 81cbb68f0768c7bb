-- ===== src/Invert/Hang.antt =====
-- An empty match at the end of the list keeps the inversion from returning.
use the_silver_searcher.Base.{
  ℕ, zero, suc, ◌+◌, ◌≤◌, ◌<◌, ◌≡◌, refl, sym, ap, ◌∙◌, List, ltb, out_of_fuel, arith, lt→ltb,
  not_lt→ltb, eq→==, ◌&&◌, Bool-cases, inl, inr,
}
use the_silver_searcher.Search.{Match}
use the_silver_searcher.Invert.{State, at_match, round, invert_loop, start_state, invert_matches}

module _ (buf : List ℕ) (buf_len len p : ℕ) (lt : p < buf_len) where
  -- The last match is empty and stands at the byte that the loop has come to.
  record Stuck (s : State) : Type 0 where
    start : s.next.start ≡ p
    end : s.next.end ≡ p
    last : len ≤ s.read_index + 1

  at_match-Stuck : (s : State) → Stuck s → Stuck (at_match len s)
  unfolding at_match
  at_match-Stuck s k = elim (Bool-cases (s.in_inverted && ltb s.start s.last_line_end)) [
    | inl e ↦
        rw (e, not_lt→ltb (s.read_index + 1) len (omega (arith, k.last)))
          (record { start = k.start; end = k.end; last = omega (arith, k.last) })
    | inr e ↦
        rw (e, not_lt→ltb (s.read_index + 1) len (omega (arith, k.last)))
          (record { start = k.start; end = k.end; last = omega (arith, k.last) })
  ]

  invert_loop-Stuck :
      (fuel : ℕ) (s : State) → Stuck s → invert_loop buf buf_len len fuel p s ≡ out_of_fuel
  unfolding invert_loop round
  invert_loop-Stuck zero s k = refl
  invert_loop-Stuck (suc fuel) s k =
      rw (lt→ltb _ _ lt, eq→== p s.next.start (sym k.start))
        (ap (λ i. invert_loop buf buf_len len fuel i (at_match len s)) k.end
          ∙ invert_loop-Stuck fuel (at_match len s) (at_match-Stuck s k))

-- If the only match is empty and stands at the first byte of the buffer, the inversion runs for ever: no
-- number of rounds is enough for it to return.
pub invert_matches-hangs :
    (buf : List ℕ) (buf_len fuel : ℕ) (m : ℕ → Match)
    → 0 < buf_len
    → (m 0).start ≡ 0
    → (m 0).end ≡ 0
    → invert_matches buf buf_len fuel m 1 ≡ out_of_fuel
unfolding invert_matches
invert_matches-hangs buf buf_len fuel m lt start end = rw (
    invert_loop-Stuck buf buf_len 1 0 lt fuel (start_state m)
      (record { start = start; end = end; last = omega arith }))
