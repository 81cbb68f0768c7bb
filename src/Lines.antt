-- ===== src/Lines.antt =====
-- The lines of a stream: `fgetln` and `getline` of src/util.c, for a C library that lacks them, and the head of
-- the loop of `search_stream` in src/search.c.
pub mod Back
pub mod Room
mod Examples
use the_silver_searcher.Base.{
  ℕ, zero, suc, ◌+◌, ◌*◌, Bool, true, false, not, ◌&&◌, Option, none, some, List, [], ◌∷◌, ◌++◌,
  length, ltb, leb, ◌==◌, if◌then◌else◌,
}

module _ (bufsiz : ℕ) (grants : ℕ → Bool) where
  -- What is read, with the memory for it, and the stream behind; `none` is NULL. `bufsiz` is BUFSIZ, and
  -- `grants` says for which sizes `realloc` succeeds.
  unfoldable pub fgetln_loop : (stream buf : List ℕ) (used : ℕ) → Option (List ℕ × ℕ) × List ℕ
  fgetln_loop [] buf used = (if used == 0 then none else some (buf, used), [])
  fgetln_loop (c ∷ stream) buf used =
      let grown = if leb used (length buf) then used + bufsiz else used in
      let again = fgetln_loop stream (buf ++ c ∷ []) grown in
      if leb used (length buf) && not (grants (used + bufsiz))
      then (none, stream)
      else if c == b'\n'
      then (some (buf ++ c ∷ [], grown), stream)
      else again

  unfoldable pub fgetln : (stream : List ℕ) → Option (List ℕ × ℕ) × List ℕ
  fgetln stream = fgetln_loop stream [] 0

  -- `n` is the size of the memory at `*lineptr`. The copy of the line has a NUL behind it.
  unfoldable pub store_line : (n : ℕ) → Option (List ℕ × ℕ) → Option (List ℕ × ℕ)
  store_line n none = none
  store_line n (some (line, used)) =
      if leb n (length line)
      then if grants (length line * 2) then some (line, length line * 2) else none
      else some (line, n)

  -- The line with the size of its memory, or -1, and the stream behind.
  unfoldable pub getline : (n : ℕ) (stream : List ℕ) → Option (List ℕ × ℕ) × List ℕ
  getline n stream = let (line, rest) = fgetln stream in (store_line n line, rest)

  -- The rest of a round: a line is kept, and the next one is read.
  unfoldable pub add_line :
      (again : ℕ → List ℕ → List (List ℕ)) → Option (List ℕ × ℕ) × List ℕ → List (List ℕ)
  add_line again (none, rest) = []
  add_line again (some (line, n), rest) = line ∷ again n rest

  -- The calls of `getline` up to the first one that gives no line.
  unfoldable pub read_lines : (rounds n : ℕ) (stream : List ℕ) → List (List ℕ)
  read_lines zero n stream = []
  read_lines (suc rounds) n stream = add_line (read_lines rounds) (getline n stream)
