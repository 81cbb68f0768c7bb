-- ===== src/Search/Scan.antt =====
-- What the literal search promises: the matches in the buffer from left to right, none overlapping,
-- none missed; and that the loop keeps the promise within the memory that it has.
use the_silver_searcher.Base.{
  ℕ, suc, ◌+◌, ◌≤◌, ◌<◌, ◌≡◌, Bool, true, false, not, ◌&&◌, List, [], ◌∷◌, arith, dec_lt,
}
use the_silver_searcher.Matcher.Occurrence.{Occurs}
use the_silver_searcher.Search.{is_full, Match}
use the_silver_searcher.Search.Literal.{Literal, on_boundary}

module _ (ci : Bool) (find : List ℕ) (l : Literal) where
  -- No occurrence starts at `from` or behind it and before `to`.
  abbrev pub Free : (from to : ℕ) → Type 0
  Free from to =
      (j : ℕ)
      → from ≤ j
      → j < to
      → j + l.query_len ≤ l.buf_len
      → ¬ Occurs ci find l.query_len l.buf j

  -- `p` is the first occurrence from `from` on.
  pub record Next (from p : ℕ) : Type 0 where
    pub after : from ≤ p
    pub fits : p + l.query_len ≤ l.buf_len
    pub occurs : Occurs ci find l.query_len l.buf p
    pub first : Free from p

  -- Whether the options accept the occurrence at `p`.
  abbrev pub rejected : ℕ → Bool
  rejected p = l.word_regexp && not (on_boundary l p)

  abbrev pub match_at : ℕ → Match
  match_at p = record { start = p; end = p + l.query_len }

  -- `Scan n from ms`: with `n` matches so far, those from byte `from` on are `ms`.
  pub data Scan : (n from : ℕ) → List Match → Type 0 where
    none_left : {n from : ℕ} → Free from l.buf_len → Scan n from []
    pass :
        {n from : ℕ} {ms : List Match} (p : ℕ)
        → Next from p
        → rejected p ≡ true
        → Scan n (suc p) ms
        → Scan n from ms
    take_last :
        {n from : ℕ} (p : ℕ)
        → Next from p
        → rejected p ≡ false
        → is_full l.max_matches (suc n) ≡ true
        → Scan n from (match_at p ∷ [])
    take_more :
        {n from : ℕ} {ms : List Match} (p : ℕ)
        → Next from p
        → rejected p ≡ false
        → is_full l.max_matches (suc n) ≡ false
        → Scan (suc n) (p + l.query_len) ms
        → Scan n from (match_at p ∷ ms)

  Free-append : {a b c : ℕ} → Free a b → Free b c → Free a c
  Free-append {b = b} g h j le lt = elim (dec_lt j b) [
    | yes low ↦ g j le low
    | no high ↦ h j (omega arith) lt
  ]

  Next-back : {a b p : ℕ} → a ≤ b → Free a b → Next b p → Next a p
  Next-back le g n = record {
    after = omega (arith, n.after);
    fits = n.fits;
    occurs = n.occurs;
    first = Free-append g n.first;
  }

  -- A scan may start earlier, where no occurrence lies between.
  pub Scan-back : {n a b : ℕ} {ms : List Match} → a ≤ b → Free a b → Scan n b ms → Scan n a ms
  Scan-back le g (none_left free) = none_left (Free-append g free)
  Scan-back le g (pass p next r s) = pass p (Next-back le g next) r s
  Scan-back le g (take_last p next r e) = take_last p (Next-back le g next) r e
  Scan-back le g (take_more p next r e s) = take_more p (Next-back le g next) r e s
