-- ===== src/Options/Paths/Slash.antt =====
-- The slash at the end of a path and of the one that it stands for.
use the_silver_searcher.Base.{
  ℕ, zero, suc, ◌-◌, ◌<◌, ◌≡◌, ◌⊎◌, refl, sym, ap, ◌∙◌, true, ◌&&◌, List, [], ◌∷◌, ◌++◌, at, length,
  length-append, take, ltb, Bool-cases, inl, inr, arith,
}
use the_silver_searcher.Options.Paths.{ends_in_slash, strip_slash, slash_base}

last-append : (s : List ℕ) (c : ℕ) → at (s ++ c ∷ []) (length s) ≡ c
last-append [] c = refl
last-append (x ∷ s) c = last-append s c

-- A list without its last element, and that.
take-last : (n : ℕ) (s : List ℕ) → length s ≡ suc n → take n s ++ at s n ∷ [] ≡ s
take-last n [] e = absurd (omega (arith, e))
take-last zero (x ∷ []) e = refl
take-last zero (x ∷ y ∷ s) e = absurd (omega (arith, e))
take-last (suc n) (x ∷ s) e = ap (λ q. x ∷ q) (take-last n s (omega (arith, e)))

-- What is left of a path is the path, or the path is that with a slash behind it.
strip_slash-back :
    (path : List ℕ) → (strip_slash path ≡ path) ⊎ (strip_slash path ++ b'/' ∷ [] ≡ path)
unfolding strip_slash
strip_slash-back path = elim (Bool-cases (ltb 1 (length path) && ends_in_slash path)) [
  | inl e ↦
      let is_slash : at path (length path - 1) ≡ b'/' = ground (arith, e) in
      let long : length path ≡ suc (length path - 1) = ground (arith, e) in
      simp e (
        inr (
          ap (λ c. take (length path - 1) path ++ c ∷ []) (sym is_slash)
          ∙ take-last (length path - 1) path long))
  | inr e ↦ simp e (inl refl)
]

-- A path of two bytes or more ends in a slash once that is put behind it.
slash_base-ends :
    (base_path : List ℕ) → 1 < length base_path → ends_in_slash (slash_base base_path) ≡ true
unfolding slash_base
slash_base-ends base_path long =
    let e₁ : ltb 1 (length base_path) ≡ true = ground (arith, long) in
    elim (Bool-cases (ends_in_slash base_path)) [
      | inl e ↦ simp (e₁, e) refl
      | inr e ↦
          let len : length (base_path ++ b'/' ∷ []) - 1 ≡ length base_path =
            omega (arith, length-append base_path (b'/' ∷ [])) in
          let last : at (base_path ++ b'/' ∷ []) (length (base_path ++ b'/' ∷ []) - 1) ≡ b'/' =
            ap (λ k. at (base_path ++ b'/' ∷ []) k) len ∙ last-append base_path b'/' in
          simp (e₁, e) (ground (arith, last))
    ]
