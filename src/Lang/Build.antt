-- ===== src/Lang/Build.antt =====
-- The regular expression is the extensions joined by `|`, and it fits in its memory; the extensions
-- of the chosen types are the first hundred.
use mathlib.Core.List.{append_assoc, append-nil, flatten}
use the_silver_searcher.Base.{
  ℕ, zero, suc, ◌+◌, ◌*◌, ◌≤◌, ◌<◌, ◌≡◌, refl, sym, ap, ◌∙◌, true, false, List, [], ◌∷◌, ◌++◌,
  length, length-append, length-take, take, arith, dec_lt, lt→ltb, not_lt→ltb, ℕ_discrete, eq→==,
  ne→==,
}
use the_silver_searcher.Lang.{
  Regex, bit, grow, add_extension, add_extensions, make_lang_regex, combine_one, combine_types,
  combine_file_extensions,
}

-- What the header of lang.h promises: the extensions with a bar between each two.
pub bars : List (List ℕ) → List ℕ
bars [] = []
bars (e ∷ es) = b'|' ∷ e ++ bars es

pub join : List (List ℕ) → List ℕ
join [] = []
join (e ∷ es) = e ++ bars es

grow-ge :
    (fuel need capacity : ℕ)
    → 0 < capacity
    → need ≤ capacity + fuel
    → need ≤ grow fuel need capacity
unfolding grow
grow-ge zero need capacity pos h = omega arith
grow-ge (suc fuel) need capacity pos h = elim (dec_lt capacity need) [
  | yes lt ↦ rw (lt→ltb _ _ lt) (grow-ge fuel need (capacity * 2) (omega arith) (omega arith))
  | no ge ↦ rw (not_lt→ltb _ _ ge) (omega arith)
]

grow-le : (fuel need capacity : ℕ) → capacity ≤ grow fuel need capacity
unfolding grow
grow-le zero need capacity = omega arith
grow-le (suc fuel) need capacity = ground (arith, grow-le fuel need (capacity * 2))

-- The text so far has room for `)`, `$` and NUL.
record HasRoom (r : Regex) : Type 0 where
  some_memory : 0 < r.capacity
  room : length r.text + 3 ≤ r.capacity

add_extension-HasRoom : (r : Regex) (e : List ℕ) → HasRoom r → HasRoom (add_extension r e)
unfolding add_extension
add_extension-HasRoom r e h =
    let need = length r.text + length e + 3 + bit r.subsequent in
    record {
      some_memory = omega (arith, grow-le need need r.capacity, h.some_memory);
      room = ground (
        arith,
        grow-ge need need r.capacity h.some_memory (omega arith),
        length-append r.text (b'|' ∷ e),
        length-append r.text e,
      );
    }

add_extensions-HasRoom :
    (r : Regex) (es : List (List ℕ)) → HasRoom r → HasRoom (add_extensions r es)
unfolding add_extensions
add_extensions-HasRoom r [] h = h
add_extensions-HasRoom r (e ∷ es) h =
    add_extensions-HasRoom (add_extension r e) es (add_extension-HasRoom r e h)

add_extensions-bars :
    (r : Regex) (es : List (List ℕ))
    → r.subsequent ≡ true
    → (add_extensions r es).text ≡ r.text ++ bars es
unfolding add_extensions add_extension bars
add_extensions-bars r [] h = sym (append-nil r.text)
add_extensions-bars r (e ∷ es) h =
    add_extensions-bars (add_extension r e) es refl
    ∙ rw h (append_assoc r.text (b'|' ∷ e) (bars es))

abbrev opening : Regex
opening = record { text = b'\\' ∷ b'.' ∷ b'(' ∷ []; capacity = 100; subsequent = false }

add_extensions-join :
    (es : List (List ℕ)) → (add_extensions opening es).text ≡ opening.text ++ join es
unfolding add_extensions add_extension join
add_extensions-join [] = refl
add_extensions-join (e ∷ es) = add_extensions-bars (add_extension opening e) es refl

-- The expression is `\.(`, the extensions with a bar between each two, and `)$`; with its NUL it fits in
-- the memory that has been allocated.
pub make_lang_regex-join :
    (es : List (List ℕ))
    → ((make_lang_regex es).text ≡ (b'\\' ∷ b'.' ∷ b'(' ∷ join es) ++ b')' ∷ b'$' ∷ [])
      × (length (make_lang_regex es).text + 1 ≤ (make_lang_regex es).capacity)
unfolding make_lang_regex
make_lang_regex-join es =
    let h =
      add_extensions-HasRoom opening es
        (record { some_memory = omega arith; room = omega arith }) in
    (
      ap (λ t. t ++ b')' ∷ b'$' ∷ []) (add_extensions-join es),
      omega (arith, h.room, length-append (add_extensions opening es).text (b')' ∷ b'$' ∷ [])),
    )

module _ {ℓ} {A : Type ℓ} where
  take-short : (n : ℕ) (xs : List A) → length xs ≤ n → take n xs ≡ xs
  take-short zero [] h = refl
  take-short zero (x ∷ xs) h = absurd (omega arith)
  take-short (suc n) [] h = refl
  take-short (suc n) (x ∷ xs) h = ap (x ∷◌) (take-short n xs (omega arith))

  take-append : (n : ℕ) (xs ys : List A) → length xs ≡ n → take n (xs ++ ys) ≡ xs
  take-append zero [] ys h = refl
  take-append zero (x ∷ xs) ys h = absurd (omega arith)
  take-append (suc n) [] ys h = absurd (omega arith)
  take-append (suc n) (x ∷ xs) ys h = ap (x ∷◌) (take-append n xs ys (omega arith))

  take-take-append : (n : ℕ) (xs ys : List A) → take n (take n xs ++ ys) ≡ take n (xs ++ ys)
  take-take-append zero xs ys = refl
  take-take-append (suc n) [] ys = refl
  take-take-append (suc n) (x ∷ xs) ys = ap (x ∷◌) (take-take-append n xs ys)

combine_one-take :
    (capacity : ℕ) (exts new : List (List ℕ))
    → length exts ≤ capacity
    → combine_one capacity exts new ≡ take capacity (exts ++ new)
unfolding combine_one
combine_one-take capacity exts [] h =
    sym (ap (take capacity) (append-nil exts) ∙ take-short capacity exts h)
combine_one-take capacity exts (e ∷ es) h = elim (ℕ_discrete (length exts) capacity) [
  | yes full ↦ rw (eq→== _ _ full) (sym (take-append capacity exts (e ∷ es) full))
  | no room ↦ rw (ne→== _ _ room) (
      combine_one-take capacity (exts ++ e ∷ []) es (omega (arith, length-append exts (e ∷ [])))
      ∙ ap (take capacity) (append_assoc exts (e ∷ []) es))
]

combine_types-take :
    (capacity : ℕ) (exts : List (List ℕ)) (langs : List (List (List ℕ)))
    → length exts ≤ capacity
    → combine_types capacity exts langs ≡ take capacity (exts ++ flatten langs)
unfolding combine_types flatten
combine_types-take capacity exts [] h =
    sym (ap (take capacity) (append-nil exts) ∙ take-short capacity exts h)
combine_types-take capacity exts (l ∷ langs) h = rw (combine_one-take capacity exts l h) (
    combine_types-take capacity (take capacity (exts ++ l)) langs
      (omega (arith, length-take capacity (exts ++ l)))
    ∙ take-take-append capacity (exts ++ l) (flatten langs)
    ∙ ap (take capacity) (append_assoc exts l (flatten langs)))

-- The extensions are those of the chosen file types one after the other, cut off behind the hundredth.
pub combine_file_extensions-take :
    (langs : List (List (List ℕ))) → combine_file_extensions langs ≡ take 100 (flatten langs)
unfolding combine_file_extensions
combine_file_extensions-take langs = combine_types-take 100 [] langs (omega arith)
