-- ===== src/Zfile/Call.antt =====
-- What a round of `zfile_read` does where the output is used up: more input, and a call of zlib or lzma.
use the_silver_searcher.Base.{
  ℕ, ◌+◌, ◌≤◌, ◌<◌, ◌≡◌, ◌⊎◌, refl, sym, ap, ◌∙◌, Option, List, [], ◌++◌, length, length-append,
  Run, arith, inl, inr,
}
use the_silver_searcher.Zfile.{
  Step, goes_on, at_end, Decoded, Cookie, ReadEnd, pending, fill_input, decode_more, after_decode,
  more_input,
}
use the_silver_searcher.Zfile.View.{Decodes, Moves, ahead, to_do, fill_input-some}

module _ {Z : Type 0} (init : Option Z) (decode : Z → (input : List ℕ) → Decoded Z) where
  -- The cookie behind a call with the input `a`, where `u` is unread.
  unfoldable pub called : Cookie Z → (a u : List ℕ) → Cookie Z
  called c a u = record c {
    coder = (decode c.coder a).coder;
    unread = u;
    avail = (decode c.coder a).left;
    outbuf = (decode c.coder a).bytes;
    outbuf_start = 0;
    actual_len = c.actual_len + length (decode c.coder a).bytes;
  }

  decode_more-goes :
      (c : Cookie Z) (a u : List ℕ)
      → (decode c.coder a).step ≡ goes_on
      → decode_more init decode (record c { avail = a; unread = u }) ≡ (goes_on, called c a u)
  unfolding decode_more called
  decode_more-goes c a u e = simp e refl

  pub decode_more-ends :
      (c : Cookie Z) (a u : List ℕ)
      → (decode c.coder a).step ≡ at_end
      → decode_more init decode (record c { avail = a; unread = u }) ≡ (at_end, called c a u)
  unfolding decode_more called
  decode_more-ends c a u e = simp e refl

  module _ (rest : Z → (input : List ℕ) → List ℕ) (Whole : Z → (input : List ℕ) → Type 0)
      (v : Decodes rest Whole decode) where
    called-Moves :
        (c : Cookie Z) (a u : List ℕ)
        → pending c ≡ []
        → 0 < length a
        → Whole c.coder (a ++ u)
        → a ++ u ≡ c.avail ++ c.unread
        → to_do rest (called c a u) ≤ to_do rest c
        → Moves rest c [] (called c a u)
    unfolding called
    called-Moves c a u e pos w same fewer = record {
      reads =
          v.splits c.coder a u pos w
          ∙ ap (λ i. rest c.coder i) same
          ∙ sym (ap (λ q. q ++ ahead rest c) e);
      logic = omega arith;
      decoded = omega arith;
      fewer = fewer;
    }

    -- The next round: it goes on, with less to do, or the stream has ended.
    abbrev pub Goes :
        (c c' : Cookie Z) (next : Run (ReadEnd × Cookie Z))
        (again : Step → Cookie Z → Run (ReadEnd × Cookie Z))
        → Type 0
    Goes c c' next again =
        ((next ≡ again goes_on c')
          × Whole c'.coder (c'.avail ++ c'.unread)
          × (to_do rest c' < to_do rest c))
        ⊎ ((next ≡ again at_end c') × (ahead rest c' ≡ []))

    pub more_input-Moves :
        (c : Cookie Z) (again : Step → Cookie Z → Run (ReadEnd × Cookie Z))
        → pending c ≡ []
        → Whole c.coder (c.avail ++ c.unread)
        → (c' : Cookie Z) × Moves rest c [] c'
          × (c'.eof ≡ c.eof)
          × Goes c c' (more_input init decode again c (fill_input c)) again
    unfolding more_input after_decode called
    more_input-Moves c again e w =
        let (a, u, filled, pos, same) =
          fill_input-some c (v.some_input c.coder (c.avail ++ c.unread) w) in
        let w' : Whole c.coder (a ++ u) = rw same w in
        let e₁ = ap (λ i. length (rest c.coder i)) same in
        let e₂ = ap (λ q. length q) same in
        let e₃ = length-append a u in
        let e₄ = length-append c.avail c.unread in
        elim (v.steps c.coder a u pos w') [
          | inl (goes, whole, fewer) ↦
              let lt : to_do rest (called c a u) < to_do rest c =
                omega (arith, fewer, e₁, e₂, e₃, e₄) in
              (
                called c a u,
                called-Moves c a u e pos w' same (omega (arith, lt)),
                refl,
                inl (simp (filled, decode_more-goes c a u goes) refl, whole, lt),
              )
          | inr (ends, all, le) ↦
              let le' : to_do rest (called c a u) ≤ to_do rest c =
                omega (arith, le, ap (λ q. length q) all, e₁, e₂, e₃, e₄) in
              (
                called c a u,
                called-Moves c a u e pos w' same le',
                refl,
                inr (simp (filled, decode_more-ends c a u ends) refl, all),
              )
        ]
