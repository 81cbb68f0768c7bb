-- ===== src/Matcher/Agree.antt =====
-- The two searchers agree: there is one first occurrence.
use mathlib.Core.Path.{subst}
use mathlib.Core.Bool.{not-not}
use the_silver_searcher.Base.{
  ℕ, ◌-◌, ◌*◌, ◌≤◌, ◌<◌, ◌≡◌, refl, ap, ◌∙◌, sym, Bool, not, List, Option, none, some, done,
  Returns, arith, dec_lt,
}
use the_silver_searcher.Matcher.Occurrence.{IsFolded, IsFirst}
use the_silver_searcher.Matcher.Tables.{generate_alpha_skip, generate_find_skip}
use the_silver_searcher.Matcher.BoyerMoore.{boyer_moore_strnstr}
use the_silver_searcher.Matcher.BoyerMoore.First.{boyer_moore_strnstr-IsFirst}
use the_silver_searcher.Matcher.HashTable.{generate_hash}
use the_silver_searcher.Matcher.Hash.{hash_strnstr}
use the_silver_searcher.Matcher.Hash.First.{hash_strnstr-IsFirst}

IsFirst-unique :
    (ci : Bool) (find : List ℕ) (f_len : ℕ) (s : List ℕ) (s_len : ℕ) (a b : Option ℕ)
    → IsFirst ci find f_len s s_len a
    → IsFirst ci find f_len s s_len b
    → a ≡ b
IsFirst-unique ci find f_len s s_len none none h g = refl
IsFirst-unique ci find f_len s s_len none (some k) h g = absurd (h k g.0 g.1)
IsFirst-unique ci find f_len s s_len (some j) none h g = absurd (g j h.0 h.1)
IsFirst-unique ci find f_len s s_len (some j) (some k) h g = elim (dec_lt j k) [
  | yes lt ↦ absurd (g.2 j lt h.1)
  | no ge ↦ elim (dec_lt k j) [ yes gt ↦ absurd (h.2 k gt g.1) | no le ↦ ap some (omega arith) ]
]

-- For a query of 2 to 256 bytes, in lower case if case is ignored, the table of pairs is made, and in every
-- text the search by it gives what the search by the tables of Boyer and Moore gives.
pub hash_strnstr-boyer_moore_strnstr :
    (size : ℕ) (find : List ℕ) (f_len : ℕ) (ci : Bool) (fresh : ℕ → ℕ)
    → 2 ≤ f_len
    → f_len ≤ 256
    → 4 * (f_len - 1) < size
    → IsFolded ci find f_len
    → Returns (generate_hash size find f_len (not ci)) (λ table.
      (s : List ℕ) (s_len : ℕ)
      → hash_strnstr size s find s_len f_len table (not ci)
        ≡ boyer_moore_strnstr s find s_len f_len
            (generate_alpha_skip find f_len (not ci))
            (generate_find_skip find f_len (not ci) fresh)
            ci)
hash_strnstr-boyer_moore_strnstr size find f_len ci fresh long short cells folded =
    let (table, e, first) = hash_strnstr-IsFirst size find f_len (not ci) long short cells in
    (
      table,
      e,
      λ s s_len.
          let (a, by_hash, h) = first s s_len in
          let (b, by_skips, g) =
            boyer_moore_strnstr-IsFirst s find s_len f_len ci fresh (omega arith) folded in
          by_hash
          ∙ ap done (
              IsFirst-unique ci find f_len s s_len a b
                (subst (λ (c : Bool). IsFirst c find f_len s s_len a) (not-not ci) h) g)
          ∙ sym by_skips,
    )
