-- ===== src/Matcher/FindSkip/Overlap.antt =====
-- What the query's overlaps with itself say of `is_prefix` and `suffix_len`.
use the_silver_searcher.Base.{
  ℕ, zero, suc, ◌+◌, ◌-◌, ◌≤◌, ◌<◌, ◌≡◌, ◌≢◌, refl, ap, ◌∙◌, inl, inr, Bool, true, false, not, List,
  at, arith, lt_or_eq,
}
use the_silver_searcher.Matcher.Occurrence.{fold_case, IsFolded}
use the_silver_searcher.Matcher.Tables.{same_char, prefix_loop, is_prefix, suffix_loop, suffix_len}

same_char_refl : (ci : Bool) (a b : ℕ) → a ≡ b → same_char (not ci) a b ≡ true
same_char_refl true a b e = ground arith
same_char_refl false a b e = ground arith

same_char-false :
    (ci : Bool) (a b : ℕ)
    → fold_case ci a ≡ a
    → fold_case ci b ≡ b
    → a ≢ b
    → same_char (not ci) a b ≡ false
same_char-false true a b p q ne = ground arith
same_char-false false a b p q ne = ground arith

-- The query agrees with itself moved by `d`, at every byte that both copies cover.
abbrev pub IsPeriod : List ℕ → ℕ → ℕ → Type 0
IsPeriod find f_len d = (k : ℕ) → k + d < f_len → at find k ≡ at find (k + d)

-- Moved by `d`, the query agrees with itself behind byte `j`, and not at `j`: what an occurrence `d`
-- bytes further on needs after a mismatch at `j`.
pub record IsShift (find : List ℕ) (f_len j d : ℕ) : Type 0 where
  pub behind : (k : ℕ) → j < k + d → k + d < f_len → at find k ≡ at find (k + d)
  pub differs : (k : ℕ) → k + d ≡ j → at find k ≢ at find j

-- An entry of the table: the search moves on, and never by more than an occurrence allows.
pub record IsSkip (find : List ℕ) (f_len j skip : ℕ) : Type 0 where
  pub moves : f_len - j ≤ skip
  pub safe : (d : ℕ) → 0 < d → IsShift find f_len j d → skip ≤ d + (f_len - 1 - j)

module _ (ci : Bool) (find : List ℕ) (f_len : ℕ) (folded : IsFolded ci find f_len) where
  prefix_loop-true :
      (pos rounds i : ℕ)
      → i + rounds + pos ≤ f_len
      → IsPeriod find f_len pos
      → prefix_loop find pos (not ci) rounds i ≡ true
  unfolding prefix_loop
  prefix_loop-true pos zero i h p = refl
  prefix_loop-true pos (suc rounds) i h p = ground (
    arith,
    same_char_refl ci (at find i) (at find (i + pos)),
    p i,
    prefix_loop-true pos rounds (i + 1),
  )

  pub is_prefix-true :
      (pos : ℕ) → pos ≤ f_len → IsPeriod find f_len pos → is_prefix find f_len pos (not ci) ≡ true
  unfolding is_prefix
  is_prefix-true pos h p = prefix_loop-true pos (f_len - pos) 0 (omega arith) p

  suffix_loop-le : (pos rounds i : ℕ) → suffix_loop find f_len pos (not ci) rounds i ≤ i + rounds
  unfolding suffix_loop
  suffix_loop-le pos zero i = omega arith
  suffix_loop-le pos (suc rounds) i = ground (arith, suffix_loop-le pos rounds (i + 1))

  pub suffix_len-le : (pos : ℕ) → suffix_len find f_len pos (not ci) ≤ pos
  unfolding suffix_len
  suffix_len-le pos = omega (arith, suffix_loop-le pos pos 0)

  -- The loop stops at the first byte that differs, or at `pos`.
  suffix_loop-eq :
      (pos m rounds i : ℕ)
      → i + rounds ≡ pos
      → i ≤ m
      → m ≤ pos
      → pos < f_len
      → ((t : ℕ) → t < m → at find (pos - t) ≡ at find (f_len - t - 1))
      → (m < pos → at find (pos - m) ≢ at find (f_len - m - 1))
      → suffix_loop find f_len pos (not ci) rounds i ≡ m
  unfolding suffix_loop
  suffix_loop-eq pos m zero i e h k l same stop = omega arith
  suffix_loop-eq pos m (suc rounds) i e h k l same stop = elim (lt_or_eq i m h) [
    | inl lt ↦ ground (
      arith,
      same_char_refl ci (at find (pos - i)) (at find (f_len - i - 1)) (same i lt),
      suffix_loop-eq pos m rounds (i + 1) (omega arith) (omega arith) k l same stop,
    )
    | inr eq ↦ ground (
      arith,
      same_char-false ci (at find (pos - i)) (at find (f_len - i - 1)),
      folded (pos - i),
      folded (f_len - i - 1),
      stop (omega arith),
    )
  ]

  suffix_len-eq :
      (pos m : ℕ)
      → m ≤ pos
      → pos < f_len
      → ((t : ℕ) → t < m → at find (pos - t) ≡ at find (f_len - t - 1))
      → (m < pos → at find (pos - m) ≢ at find (f_len - m - 1))
      → suffix_len find f_len pos (not ci) ≡ m
  unfolding suffix_len
  suffix_len-eq pos m k l same stop =
      suffix_loop-eq pos m pos 0 (omega arith) (omega arith) k l same stop

  pub suffix_len-last : 0 < f_len → suffix_len find f_len (f_len - 1) (not ci) ≡ f_len - 1
  suffix_len-last h =
      suffix_len-eq (f_len - 1) (f_len - 1) (omega arith) (omega arith)
        (λ t lt. ap (at find) (omega arith)) (λ lt. absurd (omega arith))

  pub suffix_len-IsShift :
      (j d : ℕ)
      → j < f_len
      → 0 < d
      → d ≤ j
      → IsShift find f_len j d
      → suffix_len find f_len (f_len - 1 - d) (not ci) ≡ f_len - 1 - j
  suffix_len-IsShift j d h pos le shift =
      suffix_len-eq (f_len - 1 - d) (f_len - 1 - j) (omega arith) (omega arith)
        (λ t lt.
          shift.behind (f_len - 1 - d - t) (omega arith) (omega arith) ∙ ap (at find) (omega arith))
        (λ lt e.
          shift.differs (j - d) (omega arith)
            (ap (at find) (omega arith) ∙ e ∙ ap (at find) (omega arith)))

  -- The last position is never written: the two bytes compared are one.
  pub last_unmoved :
      (i : ℕ)
      → i ≡ f_len - 1
      → 0 < f_len
      → at find (i - suffix_len find f_len i (not ci))
        ≡ at find (f_len - 1 - suffix_len find f_len i (not ci))
  last_unmoved i e h = ap (at find) (omega arith)

  pub differs_at :
      (j d i : ℕ)
      → i ≡ f_len - 1 - d
      → j < f_len
      → 0 < d
      → d ≤ j
      → IsShift find f_len j d
      → at find (i - suffix_len find f_len i (not ci))
        ≢ at find (f_len - 1 - suffix_len find f_len i (not ci))
  differs_at j d i e h pos le shift eq =
      let q : suffix_len find f_len i (not ci) ≡ f_len - 1 - j =
        rw e (suffix_len-IsShift j d h pos le shift) in
      shift.differs (j - d) (omega arith)
        (ap (at find) (omega (arith, q)) ∙ eq ∙ ap (at find) (omega (arith, q)))
