-- ===== src/Zfile/Next.antt =====
-- A read gives the next bytes of what the compressed file holds.
use mathlib.Core.List.{append_assoc}
use the_silver_searcher.Base.{
  ℕ, zero, suc, ◌+◌, ◌-◌, ◌≤◌, ◌<◌, ◌≡◌, ◌⊎◌, refl, sym, ap, ◌∙◌, true, false, Option, List, [],
  ◌++◌, length, length-append, ◌==◌, Run, Returns, arith, inl, inr, Bool-cases,
}
use the_silver_searcher.Zfile.{
  Step, goes_on, at_end, Decoded, Cookie, ReadEnd, read, pending, drain, read_rounds, zfile_read,
}
use the_silver_searcher.Zfile.View.{
  Decodes, Moves, Moves-append, ahead, view, to_do, drain-Moves, drain-coder, drain-stops,
  drain-full,
}
use the_silver_searcher.Zfile.Round.{round-full, round-eof, round-more}
use the_silver_searcher.Zfile.Call.{Goes, more_input-Moves}

module _ {Z : Type 0} (rest : Z → (input : List ℕ) → List ℕ)
    (Whole : Z → (input : List ℕ) → Type 0) where
  -- Where the decoder stands: the input that is left ends its stream, or it has written all.
  abbrev pub Stands : Cookie Z → Type 0
  Stands c = Whole c.coder (c.avail ++ c.unread) ⊎ (ahead rest c ≡ [])

  -- From `c` to `c'` these bytes have been read, of `size` that were asked for.
  pub record IsNext (c : Cookie Z) (size : ℕ) (bytes : List ℕ) (c' : Cookie Z) : Type 0 where
    pub moves : Moves rest c bytes c'
    pub enough :
        ((length bytes ≡ size) × (c'.eof ≡ c.eof))
        ⊎ ((c'.eof ≡ true) × (view rest c' ≡ []) × (length bytes < size))
    pub stands : Stands c'

  -- What the rest of a read gives, `total` being what it has read.
  abbrev pub Gives : List ℕ → ℕ → Cookie Z → ReadEnd × Cookie Z → Type 0
  Gives total size c (r, c') =
      (bytes : List ℕ) × (r ≡ read (total ++ bytes)) × IsNext c size bytes c'

  -- Before a round.
  abbrev pub Ready : (fuel : ℕ) → Step → Cookie Z → Type 0
  Ready fuel step c =
      ((step ≡ goes_on) × Whole c.coder (c.avail ++ c.unread) × (to_do rest c + 1 < fuel))
      ⊎ ((step ≡ at_end) × (ahead rest c ≡ []) × (0 < fuel))

  -- The stream can serve a read: it is whole, or all is decompressed and enough of the output is left.
  abbrev pub Serves : ℕ → Cookie Z → Type 0
  Serves size c =
      Whole c.coder (c.avail ++ c.unread) ⊎ ((ahead rest c ≡ []) × (size ≤ length (pending c)))

  Serves-Stands : (size : ℕ) (c : Cookie Z) → Serves size c → Stands c
  Serves-Stands size c (inl w) = inl w
  Serves-Stands size c (inr (all, le)) = inr all

  Stands-drain : (size : ℕ) (c : Cookie Z) → Stands c → Stands (drain size c).1
  unfolding drain
  Stands-drain size c s = s

  Ready-drain :
      (fuel size : ℕ) (step : Step) (c : Cookie Z)
      → Ready fuel step c
      → Ready fuel step (drain size c).1
  unfolding drain
  Ready-drain fuel size step c r = r

  Ready-Stands : (fuel : ℕ) (step : Step) (c : Cookie Z) → Ready fuel step c → Stands c
  Ready-Stands fuel step c (inl (e, w, lt)) = inl w
  Ready-Stands fuel step c (inr (e, w, lt)) = inr w

  -- What is read behind a round is read behind all before it.
  Gives-append :
      (c c₁ c₂ : Cookie Z) (total bytes : List ℕ) (size : ℕ) (r : ReadEnd × Cookie Z)
      → Moves rest c bytes c₁
      → Moves rest c₁ [] c₂
      → c₂.eof ≡ c.eof
      → length bytes < size
      → Gives (total ++ bytes) (size - length bytes) c₂ r
      → Gives total size c r
  Gives-append c c₁ c₂ total bytes size (r, c₃) m n same short (more, e, next) =
      let len = length-append bytes more in
      (
        bytes ++ more,
        e ∙ ap (λ q. read q) (append_assoc total bytes more),
        record {
          moves =
              Moves-append rest c c₁ c₃ bytes more m
                (Moves-append rest c₁ c₂ c₃ [] more n next.moves);
          enough = elim next.enough [
            | inl (all, kept) ↦ inl (omega (arith, len, all, short), kept ∙ same)
            | inr (at_eof, seen, lt) ↦ inr (at_eof, seen, omega (arith, len, lt, short))
          ];
          stands = next.stands;
        },
      )

  module _ (init : Option Z) (decode : Z → (input : List ℕ) → Decoded Z)
      (v : Decodes rest Whole decode) where
    next-Ready :
        (fuel : ℕ) (c c' : Cookie Z) (next : Run (ReadEnd × Cookie Z))
        (again : Step → Cookie Z → Run (ReadEnd × Cookie Z))
        → to_do rest c + 1 < suc fuel
        → Goes init decode rest Whole v c c' next again
        → (step : Step) × (next ≡ again step c') × Ready fuel step c'
    next-Ready fuel c c' next again lt (inl (e, w, fewer)) =
        (goes_on, e, inl (refl, w, omega (arith, lt, fewer)))
    next-Ready fuel c c' next again lt (inr (e, all)) =
        (at_end, e, inr (refl, all, omega (arith, lt)))

    pub read_rounds-Gives :
        (fuel : ℕ) (total : List ℕ) (size : ℕ) (step : Step) (c : Cookie Z)
        → Ready fuel step c
        → Returns (read_rounds init decode fuel total size step c) (Gives total size c)
    read_rounds-Gives zero total size step c (inl (e, w, lt)) = absurd (omega (arith, lt))
    read_rounds-Gives zero total size step c (inr (e, w, lt)) = absurd (omega (arith, lt))
    read_rounds-Gives (suc fuel) total size step c ready =
        let bytes = (drain size c).0 in
        let c₁ = (drain size c).1 in
        let m = drain-Moves rest size c in
        let ready₁ = Ready-drain (suc fuel) size step c ready in
        elim (drain-stops size c) [
          | inl full ↦ (
            (read (total ++ bytes), c₁),
            round-full init decode fuel total size step c full,
            (
              bytes,
              refl,
              record {
                moves = m;
                enough = inl (full, (drain-coder size c).3);
                stands = Ready-Stands (suc fuel) step c₁ ready₁;
              },
            ),
          )
          | inr (empty, short) ↦ elim ready₁ [
            | inl (goes, whole, enough_fuel) ↦
                let again = read_rounds init decode fuel (total ++ bytes) (size - length bytes) in
                let (c₂, n, kept, next) =
                  more_input-Moves init decode rest Whole v c₁ again empty whole in
                let (step', e', ready₂) = next-Ready fuel c₁ c₂ _ again enough_fuel next in
                let (r, done_r, gives) =
                  read_rounds-Gives fuel (total ++ bytes) (size - length bytes) step' c₂ ready₂ in
                (
                  r,
                  round-more init decode fuel total size step c short goes ∙ e' ∙ done_r,
                  Gives-append c c₁ c₂ total bytes size r m n (kept ∙ (drain-coder size c).3) short
                      gives,
                )
            | inr (ends, all, pos) ↦ (
              (read (total ++ bytes), record c₁ { eof = true }),
              round-eof init decode fuel total size step c short ends,
              (
                bytes,
                refl,
                record {
                  moves = record {
                    reads = m.reads;
                    logic = m.logic;
                    decoded = m.decoded;
                    fewer = m.fewer;
                  };
                  enough = inr (refl, rw (empty, all) refl, short);
                  stands = inr all;
                },
              ),
            )
          ]
        ]

    -- A first round that has all that is asked for.
    read_rounds-drained :
        (fuel size : ℕ) (step : Step) (c : Cookie Z)
        → Stands c
        → size ≤ length (pending c)
        → Returns (read_rounds init decode (suc fuel) [] size step c) (Gives [] size c)
    read_rounds-drained fuel size step c stand le =
        let full = drain-full size c le in
        (
          (read (drain size c).0, (drain size c).1),
          round-full init decode fuel [] size step c full,
          (
            (drain size c).0,
            refl,
            record {
              moves = drain-Moves rest size c;
              enough = inl (full, (drain-coder size c).3);
              stands = Stands-drain size c stand;
            },
          ),
        )

    -- Where zlib or lzma works as it documents, the end of the file is not noted and the offsets agree, and
    -- either the stream is whole or all is decompressed and enough of it is left in the output, a read with
    -- more rounds than there are input and output left, and one, ends. It gives the bytes that are next: as
    -- many as are asked for, or all that are left, with the end of the file noted; both offsets count them,
    -- and the decoder stands where it should.
    pub zfile_read-IsNext :
        (fuel size : ℕ) (c : Cookie Z)
        → c.eof ≡ false
        → c.logic_offset ≡ c.decode_offset
        → Serves size c
        → to_do rest c + 1 < fuel
        → Returns
            (zfile_read init decode fuel size c)
            (λ (r, c'). (bytes : List ℕ) × (r ≡ read bytes) × IsNext c size bytes c')
    unfolding zfile_read
    zfile_read-IsNext zero size c not_eof same serves enough_fuel =
        absurd (omega (arith, enough_fuel))
    zfile_read-IsNext (suc fuel) size c not_eof same serves enough_fuel =
        elim (Bool-cases (size == 0)) [
          | inl e ↦
              let z : size ≡ 0 = ground (arith, e) in
              simp e (
                (read [], c),
                refl,
                (
                  [],
                  refl,
                  record {
                    moves = record {
                      reads = refl;
                      logic = omega arith;
                      decoded = omega arith;
                      fewer = omega arith;
                    };
                    enough = inl (sym z, refl);
                    stands = Serves-Stands size c serves;
                  },
                ),
              )
          | inr e ↦
              let same' : (c.logic_offset == c.decode_offset) ≡ true = ground (arith, same) in
              simp (e, not_eof, same')
                (elim serves [
                  | inl whole ↦
                      read_rounds-Gives (suc fuel) [] size goes_on c
                        (inl (refl, whole, enough_fuel))
                  | inr (all, le) ↦ read_rounds-drained fuel size goes_on c (inr all) le
                ])
        ]
