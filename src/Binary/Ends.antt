-- ===== src/Binary/Ends.antt =====
-- The test for binary files always ends.
use the_silver_searcher.Base.{
  ℕ, zero, suc, ◌+◌, ◌-◌, ◌≤◌, ◌<◌, refl, Bool, true, false, ◌&&◌, List, leb, ◌==◌, Run, Returns,
  arith, dec_lt, lt→ltb, not_lt→ltb, Bool-cases, inl, inr,
}
use the_silver_searcher.Binary.{
  Verdict, nul, fine, suspicious, look, too_many, judge, binary_loop, has_bom, is_pdf, total_of,
  is_binary,
}

-- The byte at the end of a round is not before the one at its start.
abbrev Advances : ℕ → Verdict → Type 0
Advances i nul = Unit {0}
Advances i (fine k) = i ≤ k
Advances i (suspicious k) = i ≤ k

abbrev Ends : Run Bool → Type 0
Ends r = Returns r (λ b. Unit {0})

look-Advances : (buf : List ℕ) (total i : ℕ) → Advances i (look buf total i)
unfolding look
look-Advances buf total i = ground arith

judge-Ends :
    (total : ℕ) (again : ℕ → ℕ → Run Bool) (s i : ℕ) (v : Verdict)
    → Advances i v
    → ((k t : ℕ) → i < k → Ends (again k t))
    → Ends (judge total again s v)
unfolding judge
judge-Ends total again s i nul h ih = (true, refl, tt)
judge-Ends total again s i (fine k) h ih = ih (k + 1) s (omega arith)
judge-Ends total again s i (suspicious k) h ih =
    elim (Bool-cases (leb 32 k && too_many total (s + 1))) [
      | inl e ↦ rw e (true, refl, tt)
      | inr e ↦ rw e (ih (k + 1) (s + 1) (omega arith))
    ]

binary_loop-Ends :
    (buf : List ℕ) (total fuel i s : ℕ) → total - i < fuel → Ends (binary_loop buf total fuel i s)
unfolding binary_loop
binary_loop-Ends buf total zero i s h = absurd (omega arith)
binary_loop-Ends buf total (suc fuel) i s h = elim (dec_lt i total) [
  | yes lt ↦ rw (lt→ltb _ _ lt) (
      judge-Ends total (binary_loop buf total fuel) s i (look buf total i)
        (look-Advances buf total i)
        (λ k t after. binary_loop-Ends buf total fuel k t (omega arith)))
  | no over ↦ rw (not_lt→ltb _ _ over) (_, refl, tt)
]

-- For every buffer the test gives an answer.
pub is_binary-Returns :
    (buf : List ℕ) (buf_len : ℕ) → Returns (is_binary buf buf_len) (λ b. Unit {0})
unfolding is_binary
is_binary-Returns buf buf_len = elim (Bool-cases (buf_len == 0)) [
  | inl e ↦ rw e (false, refl, tt)
  | inr e ↦ rw e (elim (Bool-cases (has_bom buf buf_len)) [
    | inl b ↦ rw b (false, refl, tt)
    | inr b ↦ rw b (elim (Bool-cases (is_pdf buf buf_len)) [
      | inl p ↦ rw p (true, refl, tt)
      | inr p ↦
          rw p (binary_loop-Ends buf (total_of buf_len) (total_of buf_len + 1) 0 0 (omega arith))
    ])
  ])
]
