-- ===== src/Names.antt =====
-- Sorted arrays of names: `binary_search` of src/util.c.
pub mod Sorted
pub mod Find
mod Examples
use mathlib.Core.WellFounded.{Acc}
use Prim.Native.Nat.{Ordering, lt, eq, gt}
use mathlib.Core.Logic.{dite}
use the_silver_searcher.Base.{
  ℕ, suc, ◌+◌, ◌-◌, ◌/◌, ◌<◌, Option, none, some, List, [], get_or, dec_lt, arith,
}
use the_silver_searcher.Base.Bytes.{strcmp}
use the_silver_searcher.Base.Order.{lt_wf}

pub half-lt : (n : ℕ) → 0 < n → n / 2 < n
half-lt n h = omega arith

pub rest-lt : (n : ℕ) → 0 < n → n - n / 2 - 1 < n
rest-lt n h = omega arith

-- The search among the `size` names from `start` on. It recurses on the size of the range.
unfoldable pub search_range :
    (needle : List ℕ) (haystack : List (List ℕ)) (start size : ℕ) → Acc ◌<◌ size → Option ℕ
search_range needle haystack start size (Acc.intro _ smaller) =
    dite (dec_lt 0 size)
      (λ h. elim (strcmp needle (get_or haystack (start + size / 2) [])) [
        | lt ↦ search_range needle haystack start (size / 2) (smaller (size / 2) (half-lt size h))
        | gt ↦
            search_range needle haystack (start + size / 2 + 1) (size - size / 2 - 1)
              (smaller (size - size / 2 - 1) (rest-lt size h))
        | eq ↦ some (start + size / 2)
      ])
      (λ _. none)

-- `none` is the result -1. The callers search the whole array, from 0 to its length.
unfoldable pub binary_search :
    (needle : List ℕ) (haystack : List (List ℕ)) (start end : ℕ) → Option ℕ
unfolding search_range lt_wf strcmp dec_lt
binary_search needle haystack start end =
    search_range needle haystack start (end - start) (lt_wf.apply (end - start))
