-- ===== src/Lang/Table/Rows.antt =====
-- Every row of the table fits in the arrays that it is declared and copied in.
use mathlib.Core.List.{Memᴰ}
use Prim.Native.String.{String}
use the_silver_searcher.Base.{◌<◌, ◌≡◌, refl, Bool, true, ◌&&◌, List, [], ◌∷◌, length, ltb, arith}
use the_silver_searcher.Lang.Table.{LangSpec, codes, langs}

module _ {ℓ} {A : Type ℓ} (test : A → Bool) where
  abbrev all : List A → Bool
  all [] = true
  all (x ∷ xs) = test x && all xs

  all-Memᴰ : (x : A) (xs : List A) → all xs ≡ true → Memᴰ x xs → test x ≡ true
  all-Memᴰ x [] h m = elim m [ ]
  all-Memᴰ x (y ∷ ys) h (Memᴰ.head e) = ground (arith, e)
  all-Memᴰ x (y ∷ ys) h (Memᴰ.tail m) = ground (arith, all-Memᴰ x ys (ground arith) m)

abbrev is_short : String → Bool
is_short e = ltb (length (codes e)) 20

abbrev fits : LangSpec → Bool
fits l = ltb 0 (length l.extensions) && ltb (length l.extensions) 12 && all is_short l.extensions

all_fits : all fits langs ≡ true
all_fits = refl

-- Each row names at least one extension, and leaves room for the NULL behind them in its array of
-- MAX_EXTENSIONS; each extension fits with its NUL in the SINGLE_EXT_LEN bytes that it is copied to.
langs-fits :
    (l : LangSpec)
    → Memᴰ l langs
    → (0 < length l.extensions)
      × (length l.extensions < 12)
      × ((e : String) → Memᴰ e l.extensions → length (codes e) < 20)
langs-fits l m =
    let ok = all-Memᴰ fits l langs all_fits m in
    (ground arith, ground arith, λ e k. ground (arith, all-Memᴰ is_short e l.extensions))
