-- ===== src/Copy/Cut.antt =====
-- What is copied of a string.
use the_silver_searcher.Base.{
  ℕ, zero, suc, ◌+◌, ◌-◌, ◌≤◌, ◌<◌, ◌≡◌, ◌≢◌, refl, ap, ◌∙◌, true, false, List, at, ◌==◌,
  if◌then◌else◌, update, arith, Bool-cases, inl, inr, eq→==, ne→==, dec_lt,
}
use the_silver_searcher.Copy.{Copied, copy_loop, skip_loop, strlcpy}

module _ (src : List ℕ) (len : ℕ) (inner : (i : ℕ) → i < len → at src i ≢ 0)
    (last : at src len ≡ 0) where
  skip_loop-end : (rounds i : ℕ) → i + rounds ≡ len → skip_loop src rounds i ≡ len + 1
  unfolding skip_loop
  skip_loop-end zero i e = omega (arith, e)
  skip_loop-end (suc rounds) i e =
      rw (ne→== (at src i) 0 (inner i (omega (arith, e))))
        (skip_loop-end rounds (i + 1) (omega (arith, e)))

  is_end : (i : ℕ) → i ≤ len → at src i ≡ 0 → i ≡ len
  is_end i le e = elim (dec_lt i len) [
    | yes lt ↦ absurd (inner i lt e)
    | no ge ↦ omega (arith, ge, le)
  ]

  before_end : (i : ℕ) → i ≤ len → at src i ≢ 0 → i + 1 ≤ len
  before_end i le ne = elim (dec_lt i len) [
    | yes lt ↦ omega (arith, lt)
    | no ge ↦ absurd (ne (ap (at src) (omega (arith, ge, le)) ∙ last))
  ]

  -- What `update` leaves, and what it writes.
  other : (i j : ℕ) (dst : ℕ → ℕ) → i ≢ j → update dst i (at src i) j ≡ dst j
  other i j dst ne = rw (ne→== i j ne) refl

  same : (i j : ℕ) (dst : ℕ → ℕ) → i ≡ j → update dst i (at src i) j ≡ at src j
  same i j dst e = rw (eq→== i j e) (ap (at src) e)

  -- The array with the NUL that is put behind the bytes.
  abbrev closed : (dst : ℕ → ℕ) (count size : ℕ) → ℕ → ℕ
  closed dst count size = if size == 0 then dst else update dst count 0

  closed-other : (dst : ℕ → ℕ) (count size j : ℕ) → count ≢ j → closed dst count size j ≡ dst j
  closed-other dst count size j ne = elim (Bool-cases (size == 0)) [
    | inl zero_size ↦ rw zero_size refl
    | inr room ↦ rw (room, ne→== count j ne) refl
  ]

  closed-same :
      (dst : ℕ → ℕ) (count size j : ℕ) → count ≡ j → 0 < size → closed dst count size j ≡ 0
  closed-same dst count size j e pos =
      rw (ne→== size 0 (λ z. absurd (omega (arith, z, pos))), eq→== count j e) refl

  closed-outside :
      (dst : ℕ → ℕ) (count size j : ℕ)
      → count ≡ size - 1
      → size ≤ j
      → closed dst count size j ≡ dst j
  closed-outside dst count size j e far = elim (Bool-cases (size == 0)) [
    | inl zero_size ↦ rw zero_size refl
    | inr room ↦ closed-other dst count size j (λ e'. absurd (ground (arith, e, e', far, room)))
  ]

  -- The copying from byte `i` of an array, in the given rounds.
  record Filled (i rounds : ℕ) (before : ℕ → ℕ) (c : Copied) : Type 0 where
    ends : c.ended ≡ true → (c.count ≡ len + 1) × (len < i + rounds)
    stops : c.ended ≡ false → (c.count ≡ i + rounds) × (i + rounds ≤ len)
    below : (j : ℕ) → j < i → c.dst j ≡ before j
    above : (j : ℕ) → i + rounds ≤ j → c.dst j ≡ before j
    copied : (j : ℕ) → i ≤ j → j < c.count → c.dst j ≡ at src j

  copy_loop-Filled :
      (rounds i : ℕ) (dst : ℕ → ℕ) → i ≤ len → Filled i rounds dst (copy_loop src rounds i dst)
  unfolding copy_loop
  copy_loop-Filled zero i dst le = record {
    ends = λ e. absurd (ground (arith, e));
    stops = λ e. (omega arith, omega (arith, le));
    below = λ j lt. refl;
    above = λ j ge. refl;
    copied = λ j ge lt. absurd (omega (arith, ge, lt));
  }
  copy_loop-Filled (suc rounds) i dst le = elim (Bool-cases (at src i == 0)) [
    | inl nul ↦
        let end = is_end i le (ground (arith, nul)) in
        rw nul (record {
          ends = λ e. (omega (arith, end), omega (arith, end));
          stops = λ e. absurd (ground (arith, e));
          below = λ j lt. other i j dst (λ e. absurd (omega (arith, lt, e)));
          above = λ j ge. other i j dst (λ e. absurd (omega (arith, ge, e)));
          copied = λ j ge lt. same i j dst (omega (arith, ge, lt));
        })
    | inr more ↦
        let v =
          copy_loop-Filled rounds (i + 1) (update dst i (at src i))
            (before_end i le (λ e. absurd (ground (arith, e, more)))) in
        rw more (record {
          ends = λ e. let (n, lt) = v.ends e in (n, omega (arith, lt));
          stops = λ e. let (n, ge) = v.stops e in (omega (arith, n), omega (arith, ge));
          below = λ j lt.
              v.below j (omega (arith, lt)) ∙ other i j dst (λ e. absurd (omega (arith, lt, e)));
          above = λ j ge.
              v.above j (omega (arith, ge)) ∙ other i j dst (λ e. absurd (omega (arith, ge, e)));
          copied = λ j ge lt. elim (dec_lt i j) [
            | yes gt ↦ v.copied j (omega (arith, gt)) lt
            | no le' ↦ v.below j (omega (arith, ge, le')) ∙ same i j dst (omega (arith, ge, le'))
          ];
        })
  ]

  -- The array behind the copying, and the length that is returned.
  pub record IsCut (dst : ℕ → ℕ) (size : ℕ) (r : (ℕ → ℕ) × ℕ) : Type 0 where
    pub total : r.1 ≡ len
    pub kept : (j : ℕ) → j < len → j + 1 < size → r.0 j ≡ at src j
    pub fits : len < size → r.0 len ≡ 0
    pub cut : 0 < size → size ≤ len → r.0 (size - 1) ≡ 0
    pub outside : (j : ℕ) → size ≤ j → r.0 j ≡ dst j

  -- For a string of `len` bytes: all of it is copied if it fits with its NUL, else what fits with a NUL behind
  -- it; nothing at or behind `size` is written, and the result is the length of the string.
  pub strlcpy-IsCut : (dst : ℕ → ℕ) (size : ℕ) → IsCut dst size (strlcpy dst src len size)
  unfolding strlcpy
  strlcpy-IsCut dst size =
      let c = copy_loop src (size - 1) 0 dst in
      let v = copy_loop-Filled (size - 1) 0 dst (omega arith) in
      elim (Bool-cases c.ended) [
        | inl ended ↦
            let (n, lt) = v.ends ended in
            rw ended (record {
              total = omega (arith, n);
              kept = λ j small inside. v.copied j (omega arith) (omega (arith, n, small));
              fits = λ room. v.copied len (omega arith) (omega (arith, n)) ∙ last;
              cut = λ pos ge. absurd (omega (arith, lt, pos, ge));
              outside = λ j ge. v.above j (omega (arith, ge));
            })
        | inr stopped ↦
            let (n, ge) = v.stops stopped in
            rw stopped (record {
              total =
                  ap (λ k. k - 1) (skip_loop-end (len - c.count) c.count (omega (arith, n, ge)))
                  ∙ omega arith;
              kept = λ j small inside.
                  closed-other c.dst c.count size j (λ e. absurd (omega (arith, n, inside, e)))
                  ∙ v.copied j (omega arith) (omega (arith, n, inside));
              fits = λ room.
                  closed-same c.dst c.count size len (omega (arith, n, ge, room))
                    (omega (arith, room));
              cut = λ pos le. closed-same c.dst c.count size (size - 1) (omega (arith, n)) pos;
              outside = λ j far.
                  closed-outside c.dst c.count size j (omega (arith, n)) far
                  ∙ v.above j (omega (arith, far));
            })
      ]
