-- ===== src/Matcher/Hash/First.antt =====
-- `hash_strnstr` returns the first occurrence.
use mathlib.Core.Path.{subst}
use the_silver_searcher.Base.{
  ℕ, zero, suc, ◌+◌, ◌-◌, ◌*◌, ◌≤◌, ◌<◌, ◌≡◌, refl, sym, Bool, false, not, List, Option, none, some,
  Run, done, Returns, arith, dec_le, dec_lt, lt→ltb, not_lt→ltb, le→leb, not_le→leb, Bool-cases,
  inl, inr,
}
use the_silver_searcher.Matcher.Occurrence.{Occurs, IsFirst}
use the_silver_searcher.Matcher.HashTable.{generate_hash}
use the_silver_searcher.Matcher.HashTable.Probe.{walk_reaches}
use the_silver_searcher.Matcher.HashTable.Filled.{filled, some_free}
use the_silver_searcher.Matcher.HashTable.Entries.{Hashed, generate_hash-Hashed}
use the_silver_searcher.Matcher.Hash.{
  same_from, chain_loop, word_at, tail_loop, on_chain, step_loop, hash_strnstr,
}
use the_silver_searcher.Matcher.Hash.Chain.{
  same_from-Occurs, Occurs-same_from, word_at-hash_of, Sound, chain_loop-Sound, chain_loop-before,
}

le_antisym_suc : (j k : ℕ) → j < k + 1 → ¬ (j < k) → k ≡ j
le_antisym_suc j k h g = omega arith

module _ (size : ℕ) (s find : List ℕ) (s_len f_len : ℕ) (table : ℕ → ℕ)
    (case_sensitive : Bool) where
  -- The query does not start before `to`.
  abbrev Free : ℕ → Type 0
  Free to = (k : ℕ) → k < to → ¬ Occurs (not case_sensitive) find f_len s k

  Free-suc : (k : ℕ) → Free k → ¬ Occurs (not case_sensitive) find f_len s k → Free (k + 1)
  Free-suc k before here j lt = elim (dec_lt j k) [
    | yes old ↦ before j old
    | no new ↦
        subst (λ i. ¬ Occurs (not case_sensitive) find f_len s i) (le_antisym_suc j k lt new) here
  ]

  differs :
      (start : ℕ)
      → same_from s find case_sensitive start f_len 0 ≡ false
      → ¬ Occurs (not case_sensitive) find f_len s start
  differs start other occ =
      absurd (cc (other, Occurs-same_from s find case_sensitive start f_len occ))

  tail_loop-IsFirst :
      (fuel s_i : ℕ)
      → 0 < f_len
      → f_len ≤ s_len
      → s_len - s_i < fuel
      → Free s_i
      → Returns
          (tail_loop s find s_len f_len case_sensitive fuel s_i)
          (IsFirst (not case_sensitive) find f_len s s_len)
  unfolding tail_loop
  tail_loop-IsFirst zero s_i pos le enough before = absurd (omega arith)
  tail_loop-IsFirst (suc fuel) s_i pos le enough before = elim (dec_le s_i (s_len - f_len)) [
    | no over ↦ rw (not_le→leb _ _ over) (none, refl, λ j fits. before j (omega arith))
    | yes inside ↦
        rw (le→leb _ _ inside) (elim (Bool-cases (same_from s find case_sensitive s_i f_len 0)) [
          | inl same ↦ rw same (
            some s_i,
            refl,
            (omega arith, same_from-Occurs s find case_sensitive s_i f_len same, before),
          )
          | inr other ↦ rw other (
              tail_loop-IsFirst fuel (s_i + 1) pos le (omega arith)
                (Free-suc s_i before (differs s_i other)))
        ])
  ]

  module _ (byte : f_len - 1 < 256) (some_cell : 0 < size)
      (hashed : Hashed size find case_sensitive (f_len - 1) byte some_cell (f_len - 1) table)
      (highest : (h : ℕ) → table h ≤ f_len - 1) (room : filled table size < size)
      (long : 2 ≤ f_len) where
    chain : (s_i : ℕ) → Run (Option ℕ)
    chain s_i = chain_loop size s find f_len table case_sensitive s_i size (word_at size s s_i)

    -- An occurrence that covers the word at `s_i` is found, or one before it.
    covered :
        (s_i k : ℕ) (r : Option ℕ)
        → chain s_i ≡ done r
        → k ≤ s_i
        → s_i + 2 ≤ k + f_len
        → Occurs (not case_sensitive) find f_len s k
        → (start : ℕ) × (r ≡ some start) × (start ≤ k)
    unfolding chain
    covered s_i k r e le cover occ =
        let i = s_i - k in
        let (c, lt, only, same) =
          word_at-hash_of size s find case_sensitive f_len k i s_i occ (omega arith)
            (omega arith) in
        let v = hashed i c (omega arith) (omega arith, omega arith, only) in
        let back : s_i - (i + 1 - 1) ≡ k = omega arith in
        let (start, found, le') =
          chain_loop-before size s find f_len table case_sensitive s_i (i + 1) size v.moves
            (word_at size s s_i) r (omega arith) e (rw (sym same) v.there)
            (λ j below. rw (sym same) (v.before j below)) (rw back occ) in
        (start, found, omega arith)

    chain-Sound : (s_i : ℕ) → Returns (chain s_i) (Sound size s find f_len table case_sensitive s_i)
    unfolding chain
    chain-Sound s_i =
        let (j, ltj, z) = some_free table size room in
        let (n, ltn, e) = walk_reaches size (word_at size s s_i) j (grind arith) ltj in
        chain_loop-Sound size s find f_len table case_sensitive s_i size n (word_at size s s_i) ltn
          (rw e z)

    on_chain-IsFirst :
        (again : Run (Option ℕ)) (s_i : ℕ) (r : Option ℕ)
        → chain s_i ≡ done r
        → Sound size s find f_len table case_sensitive s_i r
        → s_i + f_len ≤ s_len
        → Free (s_i + 2 - f_len)
        → (Free (s_i + 1) → Returns again (IsFirst (not case_sensitive) find f_len s s_len))
        → Returns (on_chain again r) (IsFirst (not case_sensitive) find f_len s s_len)
    unfolding on_chain
    on_chain-IsFirst again s_i none e ok inside before next = next (λ k lt occ.
        elim (dec_lt k (s_i + 2 - f_len)) [
          | yes old ↦ before k old occ
          | no new ↦
              let (start, found, le) = covered s_i k none e (omega arith) (omega arith) occ in
              absurd (cc found)
        ])
    on_chain-IsFirst again s_i (some start) e (le, here) inside before next = (
      some start,
      refl,
      (
        omega arith,
        here,
        λ k lt occ. elim (dec_lt k (s_i + 2 - f_len)) [
          | yes old ↦ before k old occ
          | no new ↦
              let (start', found, le') =
                covered s_i k (some start) e (omega arith) (omega arith) occ in
              let same : start ≡ start' = cc found in absurd (omega arith)
        ],
      ),
    )

    step_loop-IsFirst :
        (fuel s_i : ℕ)
        → f_len ≤ s_len
        → s_len - s_i < fuel
        → f_len ≤ s_i + 2
        → Free (s_i + 2 - f_len)
        → Returns
            (step_loop size s find s_len f_len table case_sensitive fuel s_i)
            (IsFirst (not case_sensitive) find f_len s s_len)
    unfolding step_loop chain
    step_loop-IsFirst zero s_i le enough reached before = absurd (omega arith)
    step_loop-IsFirst (suc fuel) s_i le enough reached before = elim (dec_le s_i (s_len - f_len)) [
      | no over ↦ rw (not_le→leb _ _ over) (
          tail_loop-IsFirst (s_len + 1) (s_i + 1 - (f_len - 2 + 1)) (omega arith) le (omega arith)
            (λ k lt. before k (omega arith)))
      | yes inside ↦
          let (r, e, ok) = chain-Sound s_i in
          rw (le→leb _ _ inside, e)
            (on_chain-IsFirst
              (step_loop size s find s_len f_len table case_sensitive fuel (s_i + (f_len - 2 + 1)))
              s_i r e ok (omega arith) before
              (λ next.
                step_loop-IsFirst fuel (s_i + (f_len - 2 + 1)) le (omega arith) (omega arith)
                  (λ k lt. next k (omega arith))))
    ]

-- The table is made of a query of 2 to 256 bytes whose pairs fit in it; and with it the search returns, in
-- every text, the first occurrence of the query, and NULL if there is none.
pub hash_strnstr-IsFirst :
    (size : ℕ) (find : List ℕ) (f_len : ℕ) (case_sensitive : Bool)
    → 2 ≤ f_len
    → f_len ≤ 256
    → 4 * (f_len - 1) < size
    → Returns (generate_hash size find f_len case_sensitive) (λ table.
      (s : List ℕ) (s_len : ℕ)
      → Returns
          (hash_strnstr size s find s_len f_len table case_sensitive)
          (IsFirst (not case_sensitive) find f_len s s_len))
unfolding hash_strnstr
hash_strnstr-IsFirst size find f_len case_sensitive long short cells =
    let byte : f_len - 1 < 256 = omega arith in
    let some_cell : 0 < size = omega arith in
    let (table, e, (hashed, highest, taken)) =
      generate_hash-Hashed size find case_sensitive (f_len - 1) byte some_cell f_len (omega arith)
        (omega arith) in
    (
      table,
      e,
      λ s s_len. elim (dec_lt s_len f_len) [
        | yes shorter ↦ rw (lt→ltb _ _ shorter) (none, refl, λ j fits. absurd (omega arith))
        | no enough ↦ rw (not_lt→ltb _ _ enough) (
            step_loop-IsFirst size s find s_len f_len table case_sensitive byte some_cell hashed
              highest (omega arith) long (s_len + 1) (f_len - 2) (omega arith) (omega arith)
              (omega arith) (λ k lt. absurd (omega arith)))
      ],
    )
