-- ===== src/Matcher/Hash/Chain.antt =====
-- What the loop over the cells finds at one place of the text.
use the_silver_searcher.Base.{
  ℕ, zero, suc, ◌+◌, ◌-◌, ◌*◌, ◌%◌, ◌/◌, ◌≤◌, ◌<◌, ◌≡◌, ◌≢◌, refl, ap, ◌∙◌, sym, Bool, true, false,
  not, List, at, Option, none, some, done, out_of_fuel, Returns, arith, ℕ_discrete, eq→==, ne→==,
  Bool-cases, inl, inr,
}
use the_silver_searcher.Base.Chars.{tolower, isupper}
use the_silver_searcher.Matcher.Occurrence.{fold_case, Occurs}
use the_silver_searcher.Matcher.HashTable.{next_cell, capitalize, hash_of}
use the_silver_searcher.Matcher.HashTable.Probe.{walk}
use the_silver_searcher.Matcher.Hash.{same_from, chain_loop, word_at}

module _ (s find : List ℕ) (case_sensitive : Bool) (start : ℕ) where
  same_from-agrees :
      (rounds i : ℕ)
      → same_from s find case_sensitive start rounds i ≡ true
      → (t : ℕ) → i ≤ t
      → t < i + rounds
      → fold_case (not case_sensitive) (at s (start + t)) ≡ at find t
  unfolding same_from
  same_from-agrees zero i h t le lt = absurd (omega arith)
  same_from-agrees (suc rounds) i h t le lt = elim (ℕ_discrete t i) [
    | yes here ↦ rw here (ground arith)
    | no later ↦ same_from-agrees rounds (i + 1) (ground (arith, h)) t (omega arith) (omega arith)
  ]

  agrees-same_from :
      (rounds i : ℕ)
      → ((t : ℕ)
          → i ≤ t
          → t < i + rounds
          → fold_case (not case_sensitive) (at s (start + t)) ≡ at find t)
      → same_from s find case_sensitive start rounds i ≡ true
  unfolding same_from
  agrees-same_from zero i h = refl
  agrees-same_from (suc rounds) i h =
      rw (eq→== _ _ (h i (omega arith) (omega arith)))
        (agrees-same_from rounds (i + 1) (λ t le lt. h t (omega arith) (omega arith)))

  pub same_from-Occurs :
      (f_len : ℕ)
      → same_from s find case_sensitive start f_len 0 ≡ true
      → Occurs (not case_sensitive) find f_len s start
  same_from-Occurs f_len h t lt = same_from-agrees f_len 0 h t (omega arith) (omega arith)

  pub Occurs-same_from :
      (f_len : ℕ)
      → Occurs (not case_sensitive) find f_len s start
      → same_from s find case_sensitive start f_len 0 ≡ true
  Occurs-same_from f_len occ = agrees-same_from f_len 0 (λ t le lt. occ t (omega arith))

-- A byte of the text that stands for a byte of the query is one of its spellings.
spelling :
    (case_sensitive : Bool) (x q : ℕ)
    → fold_case (not case_sensitive) x ≡ q
    → (bit : ℕ) × (bit < 2) × (capitalize bit q ≡ x) × (case_sensitive ≡ true → bit ≡ 0)
unfolding tolower isupper
spelling true x q e = (0, omega arith, sym e, λ c. refl)
spelling false x q e = elim (Bool-cases (isupper x)) [
  | inl up ↦ (1, omega arith, ground (arith, up, e), λ c. cc)
  | inr other ↦ (0, omega arith, ground (arith, other, e), λ c. cc)
]

-- The word of the text where the query stands is a spelling of a pair of the query.
pub word_at-hash_of :
    (size : ℕ) (s find : List ℕ) (case_sensitive : Bool) (f_len start i s_i : ℕ)
    → Occurs (not case_sensitive) find f_len s start
    → s_i ≡ start + i
    → i + 1 < f_len
    → (c : ℕ) × (c < 4)
      × (case_sensitive ≡ true → c ≡ 0)
      × (hash_of size find i c ≡ word_at size s s_i)
unfolding hash_of
word_at-hash_of size s find case_sensitive f_len start i s_i occ e lt =
    let (a, la, ea, sa) =
      spelling case_sensitive (at s s_i) (at find i) (rw e (occ i (omega arith))) in
    let (b, lb, eb, sb) =
      spelling case_sensitive (at s (s_i + 1)) (at find (i + 1))
        (ap (λ j. fold_case (not case_sensitive) (at s j)) (omega arith) ∙ occ (i + 1) lt) in
    let low : (a + 2 * b) % 2 ≡ a = omega arith in
    let high : (a + 2 * b) / 2 ≡ b = omega arith in
    (a + 2 * b, omega arith, (λ c. omega (arith, sa c, sb c)), rw (low, high, ea, eb) refl)

module _ (size : ℕ) (s find : List ℕ) (f_len : ℕ) (table : ℕ → ℕ) (case_sensitive : Bool)
    (s_i : ℕ) where
  -- A place that is found is one where the query stands.
  abbrev pub Sound : Option ℕ → Type 0
  Sound none = Unit {0}
  Sound (some start) = (start ≤ s_i) × Occurs (not case_sensitive) find f_len s start

  chain_loop-zero :
      (h : ℕ) → chain_loop size s find f_len table case_sensitive s_i 0 h ≡ out_of_fuel
  unfolding chain_loop
  chain_loop-zero h = refl

  chain_loop-free :
      (fuel h : ℕ)
      → table h ≡ 0
      → chain_loop size s find f_len table case_sensitive s_i (suc fuel) h ≡ done none
  unfolding chain_loop
  chain_loop-free fuel h z = rw (eq→== _ _ z) refl

  chain_loop-found :
      (fuel h : ℕ)
      → table h ≢ 0
      → same_from s find case_sensitive (s_i - (table h - 1)) f_len 0 ≡ true
      → chain_loop size s find f_len table case_sensitive s_i (suc fuel) h
        ≡ done (some (s_i - (table h - 1)))
  unfolding chain_loop
  chain_loop-found fuel h full same = rw (ne→== _ _ full, same) refl

  chain_loop-next :
      (fuel h : ℕ)
      → table h ≢ 0
      → same_from s find case_sensitive (s_i - (table h - 1)) f_len 0 ≡ false
      → chain_loop size s find f_len table case_sensitive s_i (suc fuel) h
        ≡ chain_loop size s find f_len table case_sensitive s_i fuel (next_cell size h)
  unfolding chain_loop
  chain_loop-next fuel h full other = rw (ne→== _ _ full, other) refl

  -- With a free cell on the way the loop ends.
  pub chain_loop-Sound :
      (fuel n h : ℕ)
      → n < fuel
      → table (walk size n h) ≡ 0
      → Returns (chain_loop size s find f_len table case_sensitive s_i fuel h) Sound
  unfolding walk
  chain_loop-Sound zero n h lt z = absurd (omega arith)
  chain_loop-Sound (suc fuel) zero h lt z = (none, chain_loop-free fuel h z, tt)
  chain_loop-Sound (suc fuel) (suc n) h lt z = elim (ℕ_discrete (table h) 0) [
    | yes free ↦ (none, chain_loop-free fuel h free, tt)
    | no full ↦ elim (Bool-cases (same_from s find case_sensitive (s_i - (table h - 1)) f_len 0)) [
      | inl same ↦ (
        some (s_i - (table h - 1)),
        chain_loop-found fuel h full same,
        (omega arith, same_from-Occurs s find case_sensitive (s_i - (table h - 1)) f_len same),
      )
      | inr other ↦
          let (r, e, ok) = chain_loop-Sound fuel n (next_cell size h) (omega arith) z in
          (r, chain_loop-next fuel h full other ∙ e, ok)
    ]
  ]

  -- The loop finds the place of an entry that it comes to, or one before.
  pub chain_loop-before :
      (entry fuel n h : ℕ) (r : Option ℕ)
      → 0 < entry
      → chain_loop size s find f_len table case_sensitive s_i fuel h ≡ done r
      → table (walk size n h) ≡ entry
      → ((k : ℕ) → k < n → entry ≤ table (walk size k h))
      → Occurs (not case_sensitive) find f_len s (s_i - (entry - 1))
      → (start : ℕ) × (r ≡ some start) × (start ≤ s_i - (entry - 1))
  unfolding walk
  chain_loop-before entry zero n h r pos e there before occ = absurd (cc (e, chain_loop-zero h))
  chain_loop-before entry (suc fuel) zero h r pos e there before occ =
      let same : same_from s find case_sensitive (s_i - (table h - 1)) f_len 0 ≡ true =
        rw there (Occurs-same_from s find case_sensitive (s_i - (entry - 1)) f_len occ) in
      (
        s_i - (table h - 1),
        cc (e, chain_loop-found fuel h (ground (arith, there)) same),
        omega (arith, there),
      )
  chain_loop-before entry (suc fuel) (suc n) h r pos e there before occ =
      let big : entry ≤ table h = before 0 (omega arith) in
      let full : table h ≢ 0 = ground arith in
      elim (Bool-cases (same_from s find case_sensitive (s_i - (table h - 1)) f_len 0)) [
        | inl same ↦ (s_i - (table h - 1), cc (e, chain_loop-found fuel h full same), omega arith)
        | inr other ↦
            chain_loop-before entry fuel n (next_cell size h) r pos
              (sym (chain_loop-next fuel h full other) ∙ e) there
              (λ k lt. before (suc k) (omega arith)) occ
      ]
