-- ===== src/Lines/Examples.antt =====
-- Runs of the reading of lines, and its theorems at an input.
use the_silver_searcher.Base.{ℕ, ◌≡◌, refl, Bool, true, ltb, List, [], ◌∷◌, arith, some, none}
use the_silver_searcher.Lines.{fgetln_loop, fgetln, store_line, getline, add_line, read_lines}
use the_silver_searcher.Lines.Back.{join, AreLines, read_lines-join}
use the_silver_searcher.Lines.Room.{IsHeld, HasRoom, getline-HasRoom}

-- "ab", with its end, and "c"
abbrev two_lines : List ℕ
two_lines = b'a' ∷ b'b' ∷ b'\n' ∷ b'c' ∷ []

abbrev always : ℕ → Bool
always size = true

getline_first : getline 2 always 0 two_lines ≡ (some (b'a' ∷ b'b' ∷ b'\n' ∷ [], 6), b'c' ∷ [])
unfolding getline fgetln fgetln_loop store_line
getline_first = refl

-- The memory cannot grow to four bytes; the line is lost.
getline_refused : getline 2 (λ size. ltb size 4) 0 two_lines ≡ (none, b'c' ∷ [])
unfolding getline fgetln fgetln_loop store_line
getline_refused = refl

read_two_lines : read_lines 2 always 5 0 two_lines ≡ (b'a' ∷ b'b' ∷ b'\n' ∷ []) ∷ (b'c' ∷ []) ∷ []
unfolding read_lines add_line getline fgetln fgetln_loop store_line
read_two_lines = refl

read_lines-join_example :
    (join (read_lines 2 always 5 0 two_lines) ≡ two_lines)
    × AreLines (read_lines 2 always 5 0 two_lines)
read_lines-join_example =
    read_lines-join 2 always (omega arith) (λ size. refl) 5 0 two_lines (omega arith)

getline-HasRoom_example :
    IsHeld (fgetln 2 always two_lines) × HasRoom (getline 2 always 0 two_lines)
getline-HasRoom_example = getline-HasRoom 2 always (omega arith) 0 two_lines
