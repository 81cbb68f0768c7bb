-- ===== src/Names/Find.antt =====
-- On a sorted array `binary_search` finds a name exactly if it is there.
use mathlib.Core.WellFounded.{Acc}
use Prim.Native.Nat.{Ordering, lt, eq, gt}
use mathlib.Core.Logic.{dif_pos, dif_neg}
use native.Mathlib.Bridge.{le_prop}
use the_silver_searcher.Base.{
  ℕ, ◌+◌, ◌-◌, ◌/◌, ◌≤◌, ◌<◌, ◌≡◌, ◌≢◌, refl, sym, ap, ◌⊎◌, inl, inr, Option, none, some, List,
  length, dec_lt, arith,
}
use the_silver_searcher.Base.Bytes.{
  strcmp, strcmp-eq, strcmp_refl, strcmp-lt_trans, strcmp-gt_trans,
}
use the_silver_searcher.Base.Order.{lt_wf}
use the_silver_searcher.Names.{half-lt, rest-lt, search_range, binary_search}
use the_silver_searcher.Names.Sorted.{name_at, IsSorted}

-- An index of the range at which the name stands; or the range does not hold it.
abbrev pub Locates :
    (needle : List ℕ) (haystack : List (List ℕ)) (start end : ℕ) → Option ℕ → Type 0
Locates needle haystack start end (some m) = (start ≤ m) × (m < end) × (name_at haystack m ≡ needle)
Locates needle haystack start end none = (i : ℕ) → start ≤ i → i < end → name_at haystack i ≢ needle

Ordering-cases : (o : Ordering) → (o ≡ lt) ⊎ ((o ≡ eq) ⊎ (o ≡ gt))
Ordering-cases lt = inl refl
Ordering-cases eq = inr (inl refl)
Ordering-cases gt = inr (inr refl)

Locates-widen :
    (needle : List ℕ) (haystack : List (List ℕ)) (a b a' b' : ℕ) (r : Option ℕ)
    → a' ≤ a
    → b ≤ b'
    → ((i : ℕ) → a' ≤ i → i < a → name_at haystack i ≢ needle)
    → ((i : ℕ) → b ≤ i → i < b' → name_at haystack i ≢ needle)
    → Locates needle haystack a b r
    → Locates needle haystack a' b' r
Locates-widen needle haystack a b a' b' (some m) ha hb before behind (p, q, e) =
    (omega arith, omega arith, e)
Locates-widen needle haystack a b a' b' none ha hb before behind all = λ i le less.
    elim (dec_lt i a) [
      | yes low ↦ before i le low
      | no high ↦ elim (dec_lt i b) [
        | yes inside ↦ all i (omega arith) inside
        | no far ↦ behind i (omega arith) less
      ]
    ]

module _ (needle : List ℕ) (haystack : List (List ℕ)) (sorted : IsSorted haystack) where
  not_behind :
      (m i : ℕ)
      → strcmp needle (name_at haystack m) ≡ lt
      → m ≤ i
      → i < length haystack
      → name_at haystack i ≢ needle
  not_behind m i less le lt_len e =
      let less' : strcmp needle (name_at haystack i) ≡ lt =
        strcmp-lt_trans needle (name_at haystack m) (name_at haystack i) less
          (sorted m i le lt_len) in
      cc (strcmp_refl needle, ap (strcmp needle) e)

  not_before :
      (m i : ℕ)
      → strcmp needle (name_at haystack m) ≡ gt
      → i ≤ m
      → m < length haystack
      → name_at haystack i ≢ needle
  not_before m i more le lt_len e =
      let more' : strcmp needle (name_at haystack i) ≡ gt =
        strcmp-gt_trans needle (name_at haystack m) (name_at haystack i) more
          (sorted i m le lt_len) in
      cc (strcmp_refl needle, ap (strcmp needle) e)

  search_range-Locates :
      (start size : ℕ) (w : Acc ◌<◌ size)
      → start + size ≤ length haystack
      → Locates needle haystack start (start + size) (search_range needle haystack start size w)
  unfolding search_range
  search_range-Locates start size (Acc.intro _ smaller) fits = elim (dec_lt 0 size) [
    | no empty ↦ rw (dif_neg (dec_lt 0 size) empty) (λ i le less. absurd (omega arith))
    | yes h ↦ rw (dif_pos (dec_lt 0 size) le_prop h) (
        let mid = start + size / 2 in
        elim (Ordering-cases (strcmp needle (name_at haystack mid))) [
          | inl less ↦ rw less (
              Locates-widen needle haystack start (start + size / 2) start (start + size) _
                (omega arith) (omega arith) (λ i le below. absurd (omega arith))
                (λ i le below. not_behind mid i less le (omega arith))
                (search_range-Locates start (size / 2) (smaller (size / 2) (half-lt size h))
                  (omega arith)))
          | inr (inl same) ↦
              rw same (omega arith, omega arith, sym (strcmp-eq needle (name_at haystack mid) same))
          | inr (inr more) ↦ rw more (
              Locates-widen needle haystack (mid + 1) (mid + 1 + (size - size / 2 - 1)) start
                (start + size) _ (omega arith) (omega arith)
                (λ i le below. not_before mid i more (omega arith) (omega arith))
                (λ i le below. absurd (omega arith))
                (search_range-Locates (mid + 1) (size - size / 2 - 1)
                  (smaller (size - size / 2 - 1) (rest-lt size h)) (omega arith)))
        ])
  ]

  -- On a sorted array the search of the whole array returns an index of the name, or -1 if the array
  -- does not hold it.
  pub binary_search-Locates :
      Locates needle haystack 0
        (length haystack)
        (binary_search needle haystack 0 (length haystack))
  unfolding binary_search
  binary_search-Locates =
      let n = length haystack in
      Locates-widen needle haystack 0 (0 + (n - 0)) 0 n _ (omega arith) (omega arith)
        (λ i le less. absurd (omega arith)) (λ i le less. absurd (omega arith))
        (search_range-Locates 0 (n - 0) (lt_wf.apply (n - 0)) (omega arith))
