-- ===== src/Log/Threshold.antt =====
-- What the threshold keeps back.
use the_silver_searcher.Base.{ℕ, ◌≤◌, ◌≡◌, ◌⊎◌, inl, inr, refl, false, List, ltb, arith, Bool-cases}
use the_silver_searcher.Log.{Level, debug, msg, warn, err, number, none_at_all, Streams, vplog}

-- With a higher threshold a message is kept back, or is written as with the lower one.
vplog-raised :
    (low high : ℕ) (level : Level) (text : List ℕ) (s : Streams)
    → low ≤ high
    → (vplog high level text s ≡ s) ⊎ (vplog high level text s ≡ vplog low level text s)
unfolding vplog
vplog-raised low high level text s le = elim (Bool-cases (ltb (number level) high)) [
  | inl e ↦ simp e (inl refl)
  | inr e ↦
      let e' : ltb (number level) low ≡ false = ground (arith, e, le) in simp (e, e') (inr refl)
]

-- Behind --silent nothing is written.
vplog-silent : (level : Level) (text : List ℕ) (s : Streams) → vplog none_at_all level text s ≡ s
unfolding vplog
vplog-silent debug text s = refl
vplog-silent msg text s = refl
vplog-silent warn text s = refl
vplog-silent err text s = refl
