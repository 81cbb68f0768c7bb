-- ===== src/Matcher/HashTable/Probe.antt =====
-- The cells that a probe passes, and where the probe for a free cell ends.
use the_silver_searcher.Base.{
  ℕ, zero, suc, ◌+◌, ◌-◌, ◌<◌, ◌≡◌, ◌≢◌, refl, ap, ◌∙◌, Returns, arith, dec_lt, ℕ_discrete, eq→==,
  ne→==,
}
use the_silver_searcher.Matcher.HashTable.{next_cell, free_cell}

-- The cell that a probe from `h` comes to after `n` moves.
unfoldable pub walk : (size n h : ℕ) → ℕ
walk size zero h = h
walk size (suc n) h = walk size n (next_cell size h)

zero-add : (n : ℕ) → 0 + n ≡ n
zero-add n = omega arith

suc-add : (m n : ℕ) → suc m + n ≡ suc (m + n)
suc-add m n = omega arith

next_cell-last : (size h : ℕ) → h + 1 ≡ size → next_cell size h ≡ 0
next_cell-last size h e = grind arith

module _ (size : ℕ) where
  pub walk-suc : (n h : ℕ) → walk size (suc n) h ≡ walk size n (next_cell size h)
  unfolding walk
  walk-suc n h = refl

  pub walk-lt : (n h : ℕ) → h < size → walk size n h < size
  unfolding walk
  walk-lt zero h lt = lt
  walk-lt (suc n) h lt = walk-lt n (next_cell size h) (grind arith)

  -- Without coming to the end of the table the probe moves straight on.
  walk_straight : (n h : ℕ) → h + n < size → walk size n h ≡ h + n
  unfolding walk
  walk_straight zero h lt = omega arith
  walk_straight (suc n) h lt =
      ap (walk size n) (grind arith) ∙ walk_straight n (h + 1) (omega arith) ∙ omega arith

  walk-add : (m n h : ℕ) → walk size (m + n) h ≡ walk size n (walk size m h)
  unfolding walk
  walk-add zero n h = ap (λ k. walk size k h) (zero-add n)
  walk-add (suc m) n h = ap (λ k. walk size k h) (suc-add m n) ∙ walk-add m n (next_cell size h)

  -- The probe comes to every cell of the table.
  pub walk_reaches : (h j : ℕ) → h < size → j < size → (n : ℕ) × (n < size) × (walk size n h ≡ j)
  unfolding walk
  walk_reaches h j lt ltj = elim (dec_lt j h) [
    | no after ↦ (j - h, omega arith, walk_straight (j - h) h (omega arith) ∙ omega arith)
    | yes before ↦ (
      (size - 1 - h) + suc j,
      omega arith,
      walk-add (size - 1 - h) (suc j) h
          ∙ ap (walk size (suc j)) (walk_straight (size - 1 - h) h (omega arith))
          ∙ ap (walk size j) (next_cell-last size (h + (size - 1 - h)) (omega arith))
          ∙ walk_straight j 0 (omega arith)
          ∙ omega arith,
    )
  ]

  -- The first free cell on the way.
  pub record IsFree (table : ℕ → ℕ) (h cell : ℕ) : Type 0 where
    pub moves : ℕ
    pub reached : walk size moves h ≡ cell
    pub free : table cell ≡ 0
    pub taken : (k : ℕ) → k < moves → table (walk size k h) ≢ 0

  taken_suc :
      (table : ℕ → ℕ) (h moves : ℕ)
      → table h ≢ 0
      → ((k : ℕ) → k < moves → table (walk size k (next_cell size h)) ≢ 0)
      → (k : ℕ) → k < suc moves
      → table (walk size k h) ≢ 0
  unfolding walk
  taken_suc table h moves full taken zero below = full
  taken_suc table h moves full taken (suc k) below = taken k (omega arith)

  pub free_cell-IsFree :
      (table : ℕ → ℕ) (fuel n h : ℕ)
      → n < fuel
      → table (walk size n h) ≡ 0
      → Returns (free_cell size table fuel h) (IsFree table h)
  unfolding free_cell walk
  free_cell-IsFree table zero n h lt z = absurd (omega arith)
  free_cell-IsFree table (suc fuel) zero h lt z = rw (eq→== _ _ z) (
    h,
    refl,
    record { moves = 0; reached = refl; free = z; taken = λ k below. absurd (omega arith) },
  )
  free_cell-IsFree table (suc fuel) (suc n) h lt z = elim (ℕ_discrete (table h) 0) [
    | yes here ↦ rw (eq→== _ _ here) (
      h,
      refl,
      record { moves = 0; reached = refl; free = here; taken = λ k below. absurd (omega arith) },
    )
    | no full ↦
        let (cell, e, f) = free_cell-IsFree table fuel n (next_cell size h) (omega arith) z in
        rw (ne→== _ _ full, e)
          (
            cell,
            refl,
            record {
              moves = suc f.moves;
              reached = f.reached;
              free = f.free;
              taken = taken_suc table h f.moves full f.taken;
            },
          )
  ]
