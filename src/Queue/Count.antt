-- ===== src/Queue/Count.antt =====
-- The weight of files in a list, and sums over the first workers.
use the_silver_searcher.Base.{
  ℕ, zero, suc, ◌+◌, ◌≤◌, ◌<◌, ◌≡◌, refl, List, [], ◌∷◌, ◌++◌, update, arith, dec_lt,
}
use the_silver_searcher.Queue.{FilePath, Worker, idle, waiting, searching, finished, woken}

module _ (weigh : FilePath → ℕ) where
  abbrev pub weight : List FilePath → ℕ
  weight [] = 0
  weight (p ∷ ps) = weigh p + weight ps

  -- The weight of what a worker is searching.
  abbrev pub load : Worker → ℕ
  load idle = 0
  load waiting = 0
  load (searching p) = weigh p
  load finished = 0

  pub weight-append : (xs ys : List FilePath) → weight (xs ++ ys) ≡ weight xs + weight ys
  weight-append [] ys = omega arith
  weight-append (x ∷ xs) ys = omega (arith, weight-append xs ys)

  pub load-woken : (k : Worker) → load (woken k) ≡ load k
  load-woken idle = refl
  load-woken waiting = refl
  load-woken (searching p) = refl
  load-woken finished = refl

module _ (value : Worker → ℕ) where
  abbrev pub sum : ℕ → (ℕ → Worker) → ℕ
  sum zero ws = 0
  sum (suc n) ws = sum n ws + value (ws n)

  sum-update_outside :
      (n w : ℕ) (ws : ℕ → Worker) (k : Worker) → n ≤ w → sum n (update ws w k) ≡ sum n ws
  sum-update_outside zero w ws k h = refl
  sum-update_outside (suc n) w ws k h = ground (arith, sum-update_outside n w ws k)

  pub sum-update :
      (n w : ℕ) (ws : ℕ → Worker) (k : Worker)
      → w < n
      → sum n (update ws w k) + value (ws w) ≡ sum n ws + value k
  sum-update zero w ws k h = absurd (omega arith)
  sum-update (suc n) w ws k h = elim (dec_lt w n) [
    | yes below ↦ ground (arith, sum-update n w ws k below)
    | no last ↦ ground (arith, sum-update_outside n w ws k)
  ]

  pub sum-nothing : (n : ℕ) (ws : ℕ → Worker) → ((w : ℕ) → w < n → value (ws w) ≡ 0) → sum n ws ≡ 0
  sum-nothing zero ws h = refl
  sum-nothing (suc n) ws h =
      omega (arith, h n (omega arith), sum-nothing n ws (λ w lt. h w (omega arith)))

  pub sum-same :
      (n : ℕ) (ws us : ℕ → Worker) → ((w : ℕ) → value (us w) ≡ value (ws w)) → sum n us ≡ sum n ws
  sum-same zero ws us h = refl
  sum-same (suc n) ws us h = omega (arith, h n, sum-same n ws us h)
