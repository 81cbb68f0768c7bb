-- ===== src/Names/Sorted.antt =====
-- The order in which the names stand.
use Prim.Native.Nat.{gt}
use the_silver_searcher.Base.{ℕ, ◌≤◌, ◌<◌, ◌≢◌, List, [], length, get_or}
use the_silver_searcher.Base.Bytes.{strcmp}

-- The name in an array at an index.
abbrev pub name_at : List (List ℕ) → ℕ → List ℕ
name_at names i = get_or names i []

-- Ascending by `strcmp`, equal names allowed.
abbrev pub IsSorted : List (List ℕ) → Type 0
IsSorted names =
    (i j : ℕ) → i ≤ j → j < length names → strcmp (name_at names i) (name_at names j) ≢ gt
