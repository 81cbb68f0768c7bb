-- ===== src/Zfile/Truncated.antt =====
-- What a read does once the stream has ended in an earlier read, which `eof` does not record.
use the_silver_searcher.Base.{
  ℕ, zero, suc, ◌≤◌, ◌<◌, ◌+◌, ◌≡◌, refl, sym, ap, ◌∙◌, true, false, Option, none, some, List, [],
  ◌∷◌, length, take, drop, length-take, length-drop, length-nil, ◌==◌, done, arith,
}
use the_silver_searcher.Zfile.{
  goes_on, at_end, Decoded, Cookie, in_size, read, exits, pending, drain, fill_input, more_input,
  after_decode, read_rounds, zfile_cookie_init, decompress_open, zfile_read,
}
use the_silver_searcher.Zfile.Round.{round-more, round-full}
use the_silver_searcher.Zfile.Call.{called, decode_more-ends}

take-of_nil : (n : ℕ) → take {A = ℕ} n [] ≡ []
take-of_nil zero = refl
take-of_nil (suc n) = refl

take-of_short : (n : ℕ) (s : List ℕ) → length s ≤ n → take n s ≡ s
take-of_short zero s le = sym (length-nil s (omega (arith, le)))
take-of_short (suc n) [] le = refl
take-of_short (suc n) (b ∷ s) le = ap (λ t. b ∷ t) (take-of_short n s (omega (arith, le)))

module _ {Z : Type 0} (init : Option Z) (decode : Z → (input : List ℕ) → Decoded Z) where
  no_input : (c : Cookie Z) → length c.avail ≡ 0 → length c.unread ≡ 0 → fill_input c ≡ none
  unfolding fill_input
  no_input c e₁ e₂ = simp (e₁, e₂) refl

  drain-inputs :
      (size : ℕ) (c : Cookie Z)
      → ((drain size c).1.avail ≡ c.avail)
        × ((drain size c).1.unread ≡ c.unread)
        × ((drain size c).1.eof ≡ c.eof)
        × ((drain size c).0 ≡ take size (pending c))
  unfolding drain
  drain-inputs size c = (refl, refl, refl, refl)

  -- Where all of the file has been read and used, the end is not noted and the offsets agree, a read of
  -- more than the output that is left ends the program, whether or not the stream has ended.
  pub zfile_read-exits :
      (fuel size : ℕ) (c : Cookie Z)
      → c.eof ≡ false
      → c.logic_offset ≡ c.decode_offset
      → length c.avail ≡ 0
      → length c.unread ≡ 0
      → length (pending c) < size
      → zfile_read init decode (suc fuel) size c ≡ done (exits, (drain size c).1)
  unfolding zfile_read more_input
  zfile_read-exits fuel size c not_eof same used read_all short =
      let e : (size == 0) ≡ false = ground (arith, short) in
      let same' : (c.logic_offset == c.decode_offset) ≡ true = ground (arith, same) in
      let (a, u, _, d) = drain-inputs size c in
      let short' : length (drain size c).0 < size =
        omega (arith, short, ap (λ q. length q) d, length-take size (pending c)) in
      simp (e, not_eof, same')
        (round-more init decode fuel [] size goes_on c short' refl
          ∙ simp
              (no_input (drain size c).1 (ap (λ q. length q) a ∙ used)
                (ap (λ q. length q) u ∙ read_all))
              refl)

  -- A cookie as `decompress_open` makes it.
  abbrev opened : (blank : Cookie Z) (z : Z) (contents : List ℕ) → Cookie Z
  opened blank z contents = record blank {
    unread = contents;
    avail = [];
    logic_offset = 0;
    decode_offset = 0;
    actual_len = 0;
    coder = z;
    outbuf = [];
    outbuf_start = 0;
    eof = false;
  }

  -- The end of the stream in a round where nothing is pending.
  fill_input-opened :
      (blank : Cookie Z) (z : Z) (contents : List ℕ)
      → 0 < length contents
      → length contents ≤ in_size
      → fill_input (opened blank z contents)
        ≡ some (record (opened blank z contents) { avail = contents; unread = [] })
  unfolding fill_input
  fill_input-opened blank z contents some_input fits =
      let e : (length contents == 0) ≡ false = ground (arith, some_input) in
      simp
        (
          e,
          take-of_short in_size contents fits,
          length-nil (drop in_size contents) (omega (arith, length-drop in_size contents, fits)),
        )
        refl

  drain-opened :
      (size : ℕ) (blank : Cookie Z) (z : Z) (contents : List ℕ)
      → drain size (opened blank z contents) ≡ ([], opened blank z contents)
  unfolding drain
  drain-opened size blank z contents = rw (take-of_nil size) refl

  drain-called :
      (size : ℕ) (c : Cookie Z) (a u : List ℕ)
      → (drain size (called init decode c a u)).0 ≡ take size (decode c.coder a).bytes
  unfolding drain called
  drain-called size c a u = refl

  first_round :
      (fuel size : ℕ) (blank : Cookie Z) (z : Z) (contents : List ℕ)
      → 0 < length contents
      → length contents ≤ in_size
      → (decode z contents).step ≡ at_end
      → 0 < size
      → size ≤ length (decode z contents).bytes
      → read_rounds init decode (suc (suc fuel)) [] size goes_on (opened blank z contents)
        ≡ done (
          read (take size (decode z contents).bytes),
          (drain size (called init decode (opened blank z contents) contents [])).1,
        )
  unfolding more_input after_decode
  first_round fuel size blank z contents some_input fits ends some_size le =
      let c = opened blank z contents in
      let c₁ = called init decode c contents [] in
      let e = drain-opened size blank z contents in
      let none_yet : length (drain size c).0 ≡ 0 = ap (λ r. length r.0) e in
      let full : length (drain size c₁).0 ≡ size =
        ap (λ q. length q) (drain-called size c contents [])
        ∙ omega (arith, length-take size (decode z contents).bytes, le) in
      round-more init decode (suc fuel) [] size goes_on c (omega (arith, none_yet, some_size)) refl
      ∙ rw e (
          rw
            (
              fill_input-opened blank z contents some_input fits,
              decode_more-ends init decode c contents [] ends,
            )
            (ap (λ k. read_rounds init decode (suc fuel) [] k at_end c₁) (omega arith)
              ∙ round-full init decode fuel [] size at_end c₁ full
              ∙ ap (λ q. done (read q, (drain size c₁).1)) (drain-called size c contents [])))

  second_read :
      (fuel size size' : ℕ) (blank : Cookie Z) (z : Z) (contents : List ℕ)
      → length (decode z contents).left ≡ 0
      → length (decode z contents).bytes < size + size'
      → size ≤ length (decode z contents).bytes
      → (c'' : Cookie Z) × (zfile_read init decode
            (suc fuel)
            size'
            (drain size (called init decode (opened blank z contents) contents [])).1
          ≡ done (exits, c''))
  unfolding drain called
  second_read fuel size size' blank z contents used short le =
      let c' = (drain size (called init decode (opened blank z contents) contents [])).1 in
      let bytes = (decode z contents).bytes in
      (
        (drain size' c').1,
        zfile_read-exits fuel size' c' refl refl used refl (
            omega (
              arith,
              length-drop (0 + length (take size bytes)) bytes,
              length-take size bytes,
              short,
              le,
            )),
      )

  -- Where a new decoder can be made, and its first call, with the 1 to 32768 bytes of the file, uses all of them and
  -- says that the stream has ended, the file is opened; a read of `size` bytes, one or more and not more than the
  -- decoder wrote, gives the first of these; and then a read of `size'` bytes, more than are left, does not give those
  -- that are left, but ends the program.
  pub zfile_read_lost :
      (fuel fuel' size size' : ℕ) (blank : Cookie Z) (z : Z) (contents : List ℕ)
      → init ≡ some z
      → 0 < length contents
      → length contents ≤ in_size
      → (decode z contents).step ≡ at_end
      → length (decode z contents).left ≡ 0
      → 0 < size
      → size ≤ length (decode z contents).bytes
      → length (decode z contents).bytes < size + size'
      → (c c' c'' : Cookie Z) × (decompress_open init decode blank contents ≡ some c)
        × (zfile_read init decode (suc (suc fuel)) size c
            ≡ done (read (take size (decode z contents).bytes), c'))
        × (zfile_read init decode (suc fuel') size' c' ≡ done (exits, c''))
  unfolding decompress_open zfile_cookie_init zfile_read
  zfile_read_lost fuel fuel' size size' blank z contents made some_input fits ends used some_size le
        short =
      let d = decode z contents in
      let c : Cookie Z = opened blank z contents in
      let c' = (drain size (called init decode c contents [])).1 in
      let more : (size == 0) ≡ false = ground (arith, some_size) in
      let (c'', e) = second_read fuel' size size' blank z contents used short le in
      (
        c,
        c',
        c'',
        simp made refl,
        simp more (first_round fuel size blank z contents some_input fits ends some_size le),
        e,
      )
