-- ===== src/Scandir/Examples.antt =====
-- Runs of the listing of a directory, and its theorem at an input.
use the_silver_searcher.Base.{ℕ, zero, suc, ◌≡◌, refl, true, List, [], ◌∷◌, ltb, take, ◌==◌, not}
use the_silver_searcher.Scandir.{failed, store, keep, scan, ag_scandir}
use the_silver_searcher.Scandir.Listed.{kept, Lists, ag_scandir-kept}

abbrev count_down : ℕ → List ℕ
count_down zero = []
count_down (suc n) = suc n ∷ count_down n

-- When the array cannot grow, the 32 entries that it holds are lost.
realloc_leaks :
    ag_scandir (λ e. true) (λ n. ltb n 33) true (count_down 33) ≡ failed (take 32 (count_down 33))
unfolding ag_scandir scan keep store
realloc_leaks = refl

ag_scandir-kept_example :
    Lists
      (λ e. not (e == 1))
      (kept (λ e. not (e == 1)) (0 ∷ 1 ∷ 2 ∷ []))
      (ag_scandir (λ e. not (e == 1)) (λ n. true) true (0 ∷ 1 ∷ 2 ∷ []))
ag_scandir-kept_example = ag_scandir-kept (λ e. not (e == 1)) (0 ∷ 1 ∷ 2 ∷ [])
