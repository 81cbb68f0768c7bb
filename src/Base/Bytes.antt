-- ===== src/Base/Bytes.antt =====
-- C strings as the list of their bytes, and what the program uses of <string.h>.
use Prim.Native.Nat.{compare, Ordering, lt, eq, gt}
use the_silver_searcher.Base.{
  ℕ, suc, ◌≡◌, ◌≢◌, refl, Bool, true, false, ◌&&◌, ◌||◌, Option, none, some, List, [], ◌∷◌, ◌==◌,
  if◌then◌else◌, arith,
}

-- The sign of `strcmp`.
unfoldable pub strcmp : List ℕ → List ℕ → Ordering
strcmp [] [] = eq
strcmp [] (y ∷ t) = lt
strcmp (x ∷ s) [] = gt
strcmp (x ∷ s) (y ∷ t) = elim (compare x y) [ lt ↦ lt | eq ↦ strcmp s t | gt ↦ gt ]

-- `strncmp(s, p, strlen(p)) == 0`
unfoldable pub starts_with : (p s : List ℕ) → Bool
starts_with [] s = true
starts_with (x ∷ p) [] = false
starts_with (x ∷ p) (y ∷ s) = x == y && starts_with p s

-- `strchr(s, c) != NULL`
unfoldable pub has_char : ℕ → List ℕ → Bool
has_char c [] = false
has_char c (x ∷ s) = x == c || has_char c s

-- `strpbrk(s, accept) != NULL`
unfoldable pub has_any : (accept s : List ℕ) → Bool
unfolding has_char
has_any accept [] = false
has_any accept (x ∷ s) = has_char x accept || has_any accept s

-- The text behind the first `c`, if there is one: `strchr(s, c) + 1`.
unfoldable pub after_char : ℕ → List ℕ → Option (List ℕ)
after_char c [] = none
after_char c (x ∷ s) = if x == c then some s else after_char c s

-- The offset at which `strstr(s, p)` points.
unfoldable pub strstr : (s p : List ℕ) → Option ℕ
unfolding starts_with
strstr [] p = if starts_with p [] then some 0 else none
strstr (x ∷ s) p =
    let rest = strstr s p in
    if starts_with p (x ∷ s) then some 0 else elim rest [ none ↦ none | some k ↦ some (suc k) ]

pub strcmp-eq : (s t : List ℕ) → strcmp s t ≡ eq → s ≡ t
unfolding strcmp
strcmp-eq [] [] h = refl
strcmp-eq [] (y ∷ t) h = cc
strcmp-eq (x ∷ s) [] h = cc
strcmp-eq (x ∷ s) (y ∷ t) h = ground (arith, strcmp-eq s t)

pub strcmp_refl : (s : List ℕ) → strcmp s s ≡ eq
unfolding strcmp
strcmp_refl [] = refl
strcmp_refl (x ∷ s) = ground (arith, strcmp_refl s)

pub strcmp-lt_trans : (s t u : List ℕ) → strcmp s t ≡ lt → strcmp t u ≢ gt → strcmp s u ≡ lt
unfolding strcmp
strcmp-lt_trans [] [] u h k = cc
strcmp-lt_trans [] (y ∷ t) [] h k = absurd (k refl)
strcmp-lt_trans [] (y ∷ t) (z ∷ u) h k = refl
strcmp-lt_trans (x ∷ s) [] u h k = cc
strcmp-lt_trans (x ∷ s) (y ∷ t) [] h k = absurd (k refl)
strcmp-lt_trans (x ∷ s) (y ∷ t) (z ∷ u) h k = ground (arith, strcmp-lt_trans s t u)

pub strcmp-gt_trans : (s t u : List ℕ) → strcmp s t ≡ gt → strcmp u t ≢ gt → strcmp s u ≡ gt
unfolding strcmp
strcmp-gt_trans [] [] u h k = cc
strcmp-gt_trans [] (y ∷ t) u h k = cc
strcmp-gt_trans (x ∷ s) t [] h k = refl
strcmp-gt_trans (x ∷ s) [] (z ∷ u) h k = absurd (k refl)
strcmp-gt_trans (x ∷ s) (y ∷ t) (z ∷ u) h k = ground (arith, strcmp-gt_trans s t u)

pub strcmp-le_trans : (s t u : List ℕ) → strcmp s t ≢ gt → strcmp t u ≢ gt → strcmp s u ≢ gt
unfolding strcmp
strcmp-le_trans [] t [] h k = cc
strcmp-le_trans [] t (z ∷ u) h k = cc
strcmp-le_trans (x ∷ s) [] u h k = absurd (h refl)
strcmp-le_trans (x ∷ s) (y ∷ t) [] h k = absurd (k refl)
strcmp-le_trans (x ∷ s) (y ∷ t) (z ∷ u) h k = ground (arith, strcmp-le_trans s t u)

pub strcmp-flip : (s t : List ℕ) → strcmp s t ≡ gt → strcmp t s ≢ gt
unfolding strcmp
strcmp-flip [] [] h = cc
strcmp-flip [] (y ∷ t) h = cc
strcmp-flip (x ∷ s) [] h = cc
strcmp-flip (x ∷ s) (y ∷ t) h = ground (arith, strcmp-flip s t)
