-- ===== src/Print/Line/Plain.antt =====
-- Without colours, a width, columns or only the matches, the line of a match is printed as it is.
use mathlib.Core.List.{append-nil, append_assoc}
use the_silver_searcher.Base.{
  ℕ, zero, suc, ◌+◌, ◌-◌, ◌≤◌, ◌<◌, ◌≡◌, refl, sym, ap, ◌∙◌, Bool, true, false, ◌&&◌, List, [], ◌∷◌,
  ◌++◌, at, ltb, leb, arith, Bool-cases, inl, inr, lt→ltb,
}
use the_silver_searcher.Print.{PrintOpts, Printer, Piece, char, color_reset, print_line_number}
use the_silver_searcher.Print.Line.{
  Source, emit_if, close_match, open_match, ends_at, starts_at, print_char, chars_loop, is_too_wide,
  print_marked,
}

narrow_lem : (b : Bool) (w n : ℕ) → w ≡ 0 → (b && ltb 0 w && leb w n) ≡ false
narrow_lem true w n e = ground arith
narrow_lem false w n e = refl

-- The bytes from `from` on, one by one.
pub chars : (buf : List ℕ) (from n : ℕ) → List Piece
chars buf from zero = []
chars buf from (suc n) = char (at buf from) ∷ chars buf (from + 1) n

module _ (o : PrintOpts) (s : Source) where
  pub record IsPlain : Type 0 where
    pub no_color : o.color ≡ false
    pub all : o.only_matching ≡ false
    pub no_width : o.width ≡ 0
    pub no_column : o.column ≡ false

  module _ (v : IsPlain) where
    -- No colour goes around a match.
    emit_if-out :
        (b : Bool) (colour : List ℕ) (p : Printer) → (emit_if (b && o.color) colour p).out ≡ p.out
    emit_if-out true colour p = rw v.no_color refl
    emit_if-out false colour p = refl

    close_match-out : (j : ℕ) (b : Bool) (p : Printer) → (close_match o s j (b, p)).1.out ≡ p.out
    unfolding close_match
    close_match-out j b p = elim (Bool-cases (ends_at o s j p)) [
      | inl ends ↦ rw (ends, v.no_color, v.all) refl
      | inr other ↦ rw other refl
    ]

    open_match-out : (j : ℕ) (b : Bool) (p : Printer) → (open_match o s j b p).out ≡ p.out
    unfolding open_match
    open_match-out j b p = elim (Bool-cases (starts_at o s j p)) [
      | inl starts ↦ rw (starts, v.no_color, v.all) refl
      | inr other ↦ rw other refl
    ]

    print_char-out :
        (j : ℕ) (p : Printer)
        → j < s.buf_len
        → (print_char o s j p).out ≡ p.out ++ char (at s.buf j) ∷ []
    unfolding print_char
    print_char-out j p lt = rw (lt→ltb j s.buf_len lt, v.all, v.no_width) refl

    chars_loop-out :
        (i rounds j : ℕ) (b : Bool) (p : Printer)
        → j + rounds ≤ s.buf_len
        → (chars_loop o s i rounds j (b, p)).out ≡ p.out ++ chars s.buf j rounds
    unfolding chars_loop chars
    chars_loop-out i zero j b p le = sym (append-nil p.out)
    chars_loop-out i (suc rounds) j b p le =
        let c = close_match o s j (b, p) in
        let q = open_match o s j c.0 c.1 in
        let narrow : is_too_wide o s j c.1 ≡ false =
          narrow_lem (ltb j s.buf_len) o.width (j - c.1.prev_line_offset) v.no_width in
        rw narrow (
          chars_loop-out i rounds (j + 1) c.0 (print_char o s j q) (omega (arith, le))
          ∙ ap (λ l. l ++ chars s.buf (j + 1) rounds)
              (print_char-out j q (omega (arith, le))
                ∙ ap (λ l. l ++ char (at s.buf j) ∷ [])
                    (open_match-out j c.0 c.1 ∙ close_match-out j b p))
          ∙ append_assoc p.out (char (at s.buf j) ∷ []) (chars s.buf (j + 1) rounds))

    -- Without colours, a width, columns or only the matches, and before the end of the text, the line is
    -- printed behind its number as it stands there, from its first byte to the one that ends it.
    pub print_marked-chars :
        (i : ℕ) (p : Printer)
        → i < s.buf_len
        → p.prev_line_offset ≤ i
        → (print_marked o s i p).out
          ≡ (print_line_number o p.line b':' p).out
            ++ chars s.buf p.prev_line_offset (i + 1 - p.prev_line_offset)
    unfolding print_marked
    print_marked-chars i p lt le =
        let from = p.prev_line_offset in
        let a = print_line_number o p.line b':' p in
        let c = emit_if (p.printing_a_match && o.color) o.color_match a in
        let d = chars_loop o s i (i + 1 - from) from (false, c) in
        simp (v.no_column) (
          emit_if-out d.printing_a_match color_reset d
          ∙ chars_loop-out i (i + 1 - from) from false c (omega (arith, lt, le))
          ∙ ap (λ l. l ++ chars s.buf from (i + 1 - from))
              (emit_if-out p.printing_a_match o.color_match a))
