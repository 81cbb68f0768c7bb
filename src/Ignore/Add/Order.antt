-- ===== src/Ignore/Add/Order.antt =====
-- `add_ignore_pattern` keeps the arrays sorted, which `binary_search` rests on.
use Prim.Native.Nat.{gt}
use the_silver_searcher.Base.{
  ℕ, zero, suc, ◌+◌, ◌-◌, ◌≤◌, ◌<◌, ◌≡◌, ◌≢◌, refl, ap, ◌⊎◌, inl, inr, ◌∙◌, List, [], ◌∷◌, ◌++◌,
  length, take, drop, dec_lt, ℕ_discrete, arith,
}
use the_silver_searcher.Base.Bytes.{strcmp, strcmp_refl, strcmp-le_trans, strcmp-flip}
use the_silver_searcher.Names.Sorted.{name_at, IsSorted}
use the_silver_searcher.Ignore.Add.{slot, insert_pattern}

-- The new entry `x` at index `i`, the old ones before and behind it.
module _ (x : List ℕ) where
  abbrev pub insert_at : (i : ℕ) → List (List ℕ) → List (List ℕ)
  insert_at i xs = take i xs ++ x ∷ drop i xs

  length-insert_at : (i : ℕ) (xs : List (List ℕ)) → length (insert_at i xs) ≡ length xs + 1
  length-insert_at zero xs = omega arith
  length-insert_at (suc i) [] = refl
  length-insert_at (suc i) (y ∷ xs) = omega (arith, length-insert_at i xs)

  insert_at_before :
      (i j : ℕ) (xs : List (List ℕ))
      → j < i
      → i ≤ length xs
      → name_at (insert_at i xs) j ≡ name_at xs j
  insert_at_before zero j xs h le = absurd (omega arith)
  insert_at_before (suc i) j [] h le = absurd (omega arith)
  insert_at_before (suc i) zero (y ∷ xs) h le = refl
  insert_at_before (suc i) (suc j) (y ∷ xs) h le =
      insert_at_before i j xs (omega arith) (omega arith)

  insert_at_here : (i : ℕ) (xs : List (List ℕ)) → i ≤ length xs → name_at (insert_at i xs) i ≡ x
  insert_at_here zero xs h = refl
  insert_at_here (suc i) [] h = absurd (omega arith)
  insert_at_here (suc i) (y ∷ xs) h = insert_at_here i xs (omega arith)

  insert_at_behind :
      (i j : ℕ) (xs : List (List ℕ))
      → i ≤ j
      → i ≤ length xs
      → name_at (insert_at i xs) (suc j) ≡ name_at xs j
  insert_at_behind zero j xs h le = refl
  insert_at_behind (suc i) j [] h le = absurd (omega arith)
  insert_at_behind (suc i) zero (y ∷ xs) h le = absurd (omega arith)
  insert_at_behind (suc i) (suc j) (y ∷ xs) h le =
      insert_at_behind i j xs (omega arith) (omega arith)

not_gt_refl : (s : List ℕ) → strcmp s s ≢ gt
not_gt_refl s h = cc (strcmp_refl s)

-- An entry of the new array: an old one before, the new one, or an old one behind.
abbrev Entry : (x : List ℕ) (k : ℕ) (xs : List (List ℕ)) → ℕ → Type 0
Entry x k xs m =
    ((m < k) × (name_at (insert_at x k xs) m ≡ name_at xs m))
    ⊎ (((m ≡ k) × (name_at (insert_at x k xs) m ≡ x))
        ⊎ ((l : ℕ) × (m ≡ suc l) × (k ≤ l) × (name_at (insert_at x k xs) m ≡ name_at xs l)))

entry : (x : List ℕ) (k : ℕ) (xs : List (List ℕ)) → k ≤ length xs → (m : ℕ) → Entry x k xs m
entry x k xs fits zero = elim (dec_lt 0 k) [
  | yes h ↦ inl (h, insert_at_before x k 0 xs h fits)
  | no h ↦
      let e : 0 ≡ k = omega arith in
      inr (inl (e, ap (name_at (insert_at x k xs)) e ∙ insert_at_here x k xs fits))
]
entry x k xs fits (suc m) = elim (dec_lt (suc m) k) [
  | yes h ↦ inl (h, insert_at_before x k (suc m) xs h fits)
  | no h ↦ elim (ℕ_discrete (suc m) k) [
    | yes e ↦ inr (inl (e, ap (name_at (insert_at x k xs)) e ∙ insert_at_here x k xs fits))
    | no ne ↦ inr (inr (m, refl, omega arith, insert_at_behind x k m xs (omega arith) fits))
  ]
]

insert_at-IsSorted :
    (x : List ℕ) (k : ℕ) (xs : List (List ℕ))
    → k ≤ length xs
    → IsSorted xs
    → ((j : ℕ) → j < k → strcmp (name_at xs j) x ≢ gt)
    → ((j : ℕ) → k ≤ j → j < length xs → strcmp x (name_at xs j) ≢ gt)
    → IsSorted (insert_at x k xs)
insert_at-IsSorted x k xs fits sorted low high i j le h =
    let len = length-insert_at x k xs in
    elim (entry x k xs fits i) [
      | inl (p, a) ↦ elim (entry x k xs fits j) [
        | inl (q, b) ↦ rw (a, b) (sorted i j le (omega arith))
        | inr (inl (q, b)) ↦ rw (a, b) (low i p)
        | inr (inr (l, q, r, b)) ↦ rw (a, b) (sorted i l (omega arith) (omega (arith, len)))
      ]
      | inr (inl (p, a)) ↦ elim (entry x k xs fits j) [
        | inl (q, b) ↦ absurd (omega arith)
        | inr (inl (q, b)) ↦ rw (a, b) (not_gt_refl x)
        | inr (inr (l, q, r, b)) ↦ rw (a, b) (high l r (omega (arith, len)))
      ]
      | inr (inr (m, p, o, a)) ↦ elim (entry x k xs fits j) [
        | inl (q, b) ↦ absurd (omega arith)
        | inr (inl (q, b)) ↦ absurd (omega arith)
        | inr (inr (l, q, r, b)) ↦ rw (a, b) (sorted m l (omega arith) (omega (arith, len)))
      ]
    ]

take_all : (s : List ℕ) → take (length s) s ≡ s
take_all [] = refl
take_all (c ∷ s) = rw (take_all s)

module _ (pattern : List ℕ) (patterns : List (List ℕ)) where
  -- The index at which the loop stops: the entry before is less, those from it on are not.
  record IsSlot (n i : ℕ) : Type 0 where
    inside : i ≤ n
    less : (j : ℕ) → i ≡ suc j → strcmp pattern (name_at patterns j) ≡ gt
    rest : (j : ℕ) → i ≤ j → j < n → strcmp pattern (name_at patterns j) ≢ gt

  slot-IsSlot : (n : ℕ) → IsSlot n (slot pattern patterns n)
  unfolding slot
  slot-IsSlot zero = record {
    inside = omega arith;
    less = λ j e. absurd (omega arith);
    rest = λ j le h. absurd (omega arith);
  }
  slot-IsSlot (suc n) =
      let r = slot-IsSlot n in
      record {
        inside = ground (arith, r.inside);
        less = λ j e. ground (arith, r.less j);
        rest = λ j le h. ground (arith, r.rest j);
      }

  slot-low :
      (n : ℕ)
      → n ≤ length patterns
      → IsSorted patterns
      → (j : ℕ) → j < slot pattern patterns n
      → strcmp (name_at patterns j) pattern ≢ gt
  slot-low n le sorted j h =
      let r = slot-IsSlot n in
      let last = slot pattern patterns n - 1 in
      strcmp-le_trans (name_at patterns j) (name_at patterns last) pattern
        (sorted j last (omega arith) (omega (arith, r.inside)))
        (strcmp-flip pattern (name_at patterns last) (r.less last (omega arith)))

  -- A pattern with no white space at its end goes into a sorted array so that it stays sorted.
  pub insert_pattern-IsSorted :
      IsSorted patterns → IsSorted (insert_pattern pattern (length pattern) patterns)
  unfolding insert_pattern
  insert_pattern-IsSorted sorted =
      let r = slot-IsSlot (length patterns) in
      rw (take_all pattern) (
        insert_at-IsSorted pattern (slot pattern patterns (length patterns)) patterns r.inside
          sorted (slot-low (length patterns) (omega arith) sorted) r.rest)

  -- The pattern stands in the array that it went into.
  pub insert_pattern_holds :
      (i : ℕ) × (i < length (insert_pattern pattern (length pattern) patterns))
      × (name_at (insert_pattern pattern (length pattern) patterns) i ≡ pattern)
  unfolding insert_pattern
  insert_pattern_holds =
      let i = slot pattern patterns (length patterns) in
      let r = slot-IsSlot (length patterns) in
      (
        i,
        rw (take_all pattern) (omega (arith, length-insert_at pattern i patterns, r.inside)),
        rw (take_all pattern) (insert_at_here pattern i patterns r.inside),
      )
