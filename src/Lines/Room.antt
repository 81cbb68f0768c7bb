-- ===== src/Lines/Room.antt =====
-- The memory for a line is large enough.
use the_silver_searcher.Base.{
  ℕ, ◌+◌, ◌*◌, ◌≤◌, ◌<◌, ◌≡◌, ◌⊎◌, refl, Bool, not, ◌&&◌, Option, none, some, List, [], ◌∷◌, ◌++◌,
  length, length-append, leb, ◌==◌, if◌then◌else◌, arith, Bool-cases, inl, inr, ne→==,
}
use the_silver_searcher.Lines.{fgetln_loop, fgetln, store_line, getline}

-- A line that is read is not empty, and the memory that has been made is not smaller.
pub IsHeld : Option (List ℕ × ℕ) × List ℕ → Type 0
IsHeld (none, rest) = Unit
IsHeld (some (line, used), rest) = (0 < length line) × (length line ≤ used)

-- There is room for the NUL behind the line, too.
pub HasRoom : Option (List ℕ × ℕ) × List ℕ → Type 0
HasRoom (none, rest) = Unit
HasRoom (some (line, n), rest) = length line < n

module _ (bufsiz : ℕ) (grants : ℕ → Bool) (pos : 0 < bufsiz) where
  append_one : (c : ℕ) (buf : List ℕ) → length (buf ++ c ∷ []) ≡ length buf + 1
  append_one c buf = length-append buf (c ∷ [])

  fgetln_loop-IsHeld :
      (stream buf : List ℕ) (used : ℕ)
      → (used ≡ 0) ⊎ (0 < length buf)
      → length buf ≤ used
      → IsHeld (fgetln_loop bufsiz grants stream buf used)
  unfolding fgetln_loop IsHeld
  fgetln_loop-IsHeld [] buf used (inl z) le = rw z tt
  fgetln_loop-IsHeld [] buf used (inr p) le =
      rw (ne→== used 0 (λ e. absurd (omega (arith, e, p, le)))) (p, le)
  fgetln_loop-IsHeld (c ∷ stream) buf used begun le =
      let grown = if leb used (length buf) then used + bufsiz else used in
      let one = append_one c buf in
      let room : length (buf ++ c ∷ []) ≤ grown = ground (arith, one, le, pos) in
      let again = fgetln_loop-IsHeld stream (buf ++ c ∷ []) grown (inr (omega (arith, one))) room in
      elim (Bool-cases (leb used (length buf) && not (grants (used + bufsiz)))) [
        | inl refused ↦ rw refused tt
        | inr granted ↦ elim (Bool-cases (c == b'\n')) [
          | inl newline ↦ rw (granted, newline) (omega (arith, one), room)
          | inr other ↦ rw (granted, other) again
        ]
      ]

  store_line-HasRoom :
      (n : ℕ) (line : Option (List ℕ × ℕ)) (rest : List ℕ)
      → IsHeld (line, rest)
      → HasRoom (store_line bufsiz grants n line, rest)
  unfolding store_line IsHeld HasRoom
  store_line-HasRoom n none rest v = tt
  store_line-HasRoom n (some (line, used)) rest (p, le) = elim (Bool-cases (leb n (length line))) [
    | inl long ↦ elim (Bool-cases (grants (length line * 2))) [
      | inl granted ↦ rw (long, granted) (omega (arith, p))
      | inr refused ↦ rw (long, refused) tt
    ]
    | inr fits ↦ rw fits (ground (arith, fits))
  ]

  -- Whenever `realloc` fails, a line that `fgetln` gives is not empty and fits in its memory, and the copy that
  -- `getline` gives fits in its own with a NUL behind it.
  pub getline-HasRoom :
      (n : ℕ) (stream : List ℕ)
      → IsHeld (fgetln bufsiz grants stream) × HasRoom (getline bufsiz grants n stream)
  unfolding getline fgetln
  getline-HasRoom n stream =
      let held = fgetln_loop-IsHeld stream [] 0 (inl refl) (omega arith) in
      let (line, rest) = fgetln_loop bufsiz grants stream [] 0 in
      (held, store_line-HasRoom n line rest held)
