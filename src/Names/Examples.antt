-- ===== src/Names/Examples.antt =====
-- A run of `binary_search`, and its theorem at an array.
use the_silver_searcher.Base.{ℕ, zero, suc, ◌≡◌, refl, some, List, [], ◌∷◌, length, arith}
use the_silver_searcher.Base.Bytes.{strcmp}
use the_silver_searcher.Names.{binary_search}
use the_silver_searcher.Names.Sorted.{IsSorted}
use the_silver_searcher.Names.Find.{Locates, binary_search-Locates}

abbrev names : List (List ℕ)
names = (b'a' ∷ []) ∷ (b'a' ∷ b'b' ∷ []) ∷ (b'b' ∷ []) ∷ []

names-IsSorted : IsSorted names
unfolding strcmp
names-IsSorted zero zero p q = cc
names-IsSorted zero (suc zero) p q = cc
names-IsSorted zero (suc (suc zero)) p q = cc
names-IsSorted (suc zero) zero p q = absurd (omega arith)
names-IsSorted (suc zero) (suc zero) p q = cc
names-IsSorted (suc zero) (suc (suc zero)) p q = cc
names-IsSorted (suc (suc i)) zero p q = absurd (omega arith)
names-IsSorted (suc (suc i)) (suc zero) p q = absurd (omega arith)
names-IsSorted (suc (suc zero)) (suc (suc zero)) p q = cc
names-IsSorted (suc (suc (suc i))) (suc (suc zero)) p q = absurd (omega arith)
names-IsSorted i (suc (suc (suc j))) p q = absurd (omega arith)

search_hit : binary_search (b'a' ∷ b'b' ∷ []) names 0 3 ≡ some 1
unfolding binary_search
search_hit = refl

binary_search-Locates_example :
    Locates (b'c' ∷ []) names 0 (length names) (binary_search (b'c' ∷ []) names 0 (length names))
binary_search-Locates_example = binary_search-Locates (b'c' ∷ []) names names-IsSorted
