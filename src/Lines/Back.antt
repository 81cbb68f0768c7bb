-- ===== src/Lines/Back.antt =====
-- The lines of a stream, put together again, are the stream.
use mathlib.Core.Path.{subst}
use mathlib.Core.Bool.{and-false}
use mathlib.Core.List.{append-nil, append_assoc}
use the_silver_searcher.Base.{
  ℕ, zero, suc, ◌+◌, ◌*◌, ◌<◌, ◌≡◌, ◌≢◌, ◌⊎◌, refl, sym, ap, ◌∙◌, Bool, true, false, not, ◌&&◌,
  Option, none, some, List, [], ◌∷◌, ◌++◌, length, length-append, leb, ◌==◌, if◌then◌else◌, arith,
  Bool-cases, inl, inr, ne→==,
}
use the_silver_searcher.Lines.{fgetln_loop, fgetln, store_line, getline, add_line, read_lines}

pub NoNewline : List ℕ → Type 0
NoNewline [] = Unit
NoNewline (c ∷ s) = (c ≢ b'\n') × NoNewline s

pub join : List (List ℕ) → List ℕ
join [] = []
join (l ∷ ls) = l ++ join ls

-- Each line ends with a newline, and it has no other; the last one may lack it.
pub data AreLines : List (List ℕ) → Type 0 where
  no_line : AreLines []
  last_line : (body : List ℕ) → NoNewline body → 0 < length body → AreLines (body ∷ [])
  next_line :
      (body : List ℕ) (ls : List (List ℕ))
      → NoNewline body
      → AreLines ls
      → AreLines ((body ++ b'\n' ∷ []) ∷ ls)

append-NoNewline : (s t : List ℕ) → NoNewline s → NoNewline t → NoNewline (s ++ t)
unfolding NoNewline
append-NoNewline [] t v w = w
append-NoNewline (c ∷ s) t (ne, v) w = (ne, append-NoNewline s t v w)

-- What is read of the bytes `whole`.
data Fetched (whole : List ℕ) (r : Option (List ℕ × ℕ) × List ℕ) : Type 0 where
  nothing : whole ≡ [] → r ≡ (none, []) → Fetched whole r
  to_end :
      (used : ℕ)
      → NoNewline whole
      → 0 < length whole
      → r ≡ (some (whole, used), [])
      → Fetched whole r
  to_newline :
      (body rest : List ℕ) (used : ℕ)
      → NoNewline body
      → whole ≡ body ++ b'\n' ∷ rest
      → r ≡ (some (body ++ b'\n' ∷ [], used), rest)
      → Fetched whole r

module _ (bufsiz : ℕ) (grants : ℕ → Bool) (pos : 0 < bufsiz) (all : (k : ℕ) → grants k ≡ true) where
  -- The bytes so far, and the memory for them.
  abbrev Begun : (buf : List ℕ) (used : ℕ) → Type 0
  Begun buf used = ((used ≡ 0) × (buf ≡ [])) ⊎ ((0 < used) × (0 < length buf))

  granted : (b : Bool) (k : ℕ) → (b && not (grants k)) ≡ false
  granted b k = rw (all k) (and-false b)

  grown-Begun :
      (c : ℕ) (buf : List ℕ) (used : ℕ)
      → Begun buf used
      → Begun (buf ++ c ∷ []) (if leb used (length buf) then used + bufsiz else used)
  grown-Begun c buf used begun =
      inr (grown begun, subst (λ n. 0 < n) (sym (length-append buf (c ∷ []))) (omega arith))
    where
      grown : Begun buf used → 0 < (if leb used (length buf) then used + bufsiz else used)
      grown (inl (z, e)) = ground (arith, pos)
      grown (inr (p, q)) = ground (arith, p)

  fgetln_loop-Fetched :
      (stream buf : List ℕ) (used : ℕ)
      → NoNewline buf
      → Begun buf used
      → Fetched (buf ++ stream) (fgetln_loop bufsiz grants stream buf used)
  unfolding fgetln_loop NoNewline
  fgetln_loop-Fetched [] buf used v (inl (z, e)) = nothing (append-nil buf ∙ e) (rw z refl)
  fgetln_loop-Fetched [] buf used v (inr (p, q)) =
      let some_bytes = ne→== used 0 (λ e. absurd (omega (arith, e, p))) in
      subst (λ w. Fetched w (if used == 0 then none else some (buf, used), []))
        (sym (append-nil buf)) (to_end used v q (rw some_bytes refl))
  fgetln_loop-Fetched (c ∷ stream) buf used v begun =
      let grown = if leb used (length buf) then used + bufsiz else used in
      rw (granted (leb used (length buf)) (used + bufsiz)) (elim (Bool-cases (c == b'\n')) [
        | inl newline ↦ rw newline (
            to_newline buf stream grown v (ap (λ b. buf ++ b ∷ stream) (ground arith))
              (ap (λ b. (some (buf ++ b ∷ [], grown), stream)) (ground arith)))
        | inr other ↦ rw other (
            subst (λ w. Fetched w (fgetln_loop bufsiz grants stream (buf ++ c ∷ []) grown))
              (append_assoc buf (c ∷ []) stream)
              (fgetln_loop-Fetched stream (buf ++ c ∷ []) grown
                (append-NoNewline buf (c ∷ []) v (ground arith, tt))
                (grown-Begun c buf used begun)))
      ])

  fgetln-Fetched : (stream : List ℕ) → Fetched stream (fgetln bufsiz grants stream)
  unfolding fgetln NoNewline
  fgetln-Fetched stream = fgetln_loop-Fetched stream [] 0 tt (inl (refl, refl))

  store_line-some :
      (n : ℕ) (line : List ℕ) (used : ℕ)
      → (m : ℕ) × (store_line bufsiz grants n (some (line, used)) ≡ some (line, m))
  unfolding store_line
  store_line-some n line used = elim (Bool-cases (leb n (length line))) [
    | inl long ↦ rw (long, all (length line * 2)) (length line * 2, refl)
    | inr fits ↦ rw fits (n, refl)
  ]

  store_line-none : (n : ℕ) → store_line bufsiz grants n none ≡ none
  unfolding store_line
  store_line-none n = refl

  read_lines-nil : (rounds n : ℕ) → read_lines bufsiz grants rounds n [] ≡ []
  unfolding read_lines add_line getline fgetln fgetln_loop store_line
  read_lines-nil zero n = refl
  read_lines-nil (suc rounds) n = refl

  -- If memory never runs out, the lines that are read up to the end of a stream, in more rounds than it has
  -- bytes, are the stream when they are put together; each ends with a newline and has no other, but for the
  -- last one, which may lack it.
  pub read_lines-join :
      (rounds n : ℕ) (stream : List ℕ)
      → length stream < rounds
      → (join (read_lines bufsiz grants rounds n stream) ≡ stream)
        × AreLines (read_lines bufsiz grants rounds n stream)
  unfolding read_lines getline add_line join
  read_lines-join zero n stream lt = absurd (omega (arith, lt))
  read_lines-join (suc rounds) n stream lt = elim (fgetln-Fetched stream) [
    | nothing e r ↦ rw (r, store_line-none n) (sym e, no_line)
    | to_end used v p r ↦
        let (m, stored) = store_line-some n stream used in
        rw (r, stored, read_lines-nil rounds m) (append-nil stream, last_line stream v p)
    | to_newline body rest used v e r ↦
        let (m, stored) = store_line-some n (body ++ b'\n' ∷ []) used in
        let len = ap length e ∙ length-append body (b'\n' ∷ rest) in
        let shorter : length rest < rounds = omega (arith, len, lt) in
        let (same, lines) = read_lines-join rounds m rest shorter in
        rw (r, stored)
          (
            ap (λ l. (body ++ b'\n' ∷ []) ++ l) same ∙ append_assoc body (b'\n' ∷ []) rest ∙ sym e,
            next_line body (read_lines bufsiz grants rounds m rest) v lines,
          )
  ]
