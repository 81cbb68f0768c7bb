-- ===== src/Zfile/Seek/Skip.antt =====
-- A seek forwards skips the bytes up to where it lands.
use Prim.Native.Nat.{min}
use the_silver_searcher.Base.{
  ℕ, zero, suc, ◌+◌, ◌-◌, ◌≤◌, ◌<◌, ◌≡◌, refl, ap, ◌∙◌, true, false, Option, List, [], ◌∷◌, ◌++◌,
  length, length-append, ltb, ◌==◌, done, Returns, arith, inl, inr, dec_lt,
}
use the_silver_searcher.Zfile.{Decoded, Cookie, read, in_size, pending, zfile_read}
use the_silver_searcher.Zfile.View.{Decodes, Moves, Moves-append, ahead, view, to_do}
use the_silver_searcher.Zfile.Next.{IsNext, Serves, Stands, zfile_read-IsNext}
use the_silver_searcher.Base.Signed.{ℤ, pos}
use the_silver_searcher.Zfile.Seek.{
  Whence, SeekEnd, moved, new_offset, arrive, after_skip, skip_rounds, seek_to, zfile_seek,
}

module _ {Z : Type 0} (rest : Z → (input : List ℕ) → List ℕ)
    (Whole : Z → (input : List ℕ) → Type 0) where
  -- A stream that stands right serves what it has.
  Stands-Serves :
      (size : ℕ) (c : Cookie Z)
      → Stands rest Whole c
      → size ≤ length (view rest c)
      → Serves rest Whole size c
  Stands-Serves size c (inl w) le = inl w
  Stands-Serves size c (inr all) le =
      inr (all, omega (arith, le, length-append (pending c) (ahead rest c), ap (λ q. length q) all))

  -- A read that has enough to give is full.
  full_read :
      (size : ℕ) (c c' : Cookie Z) (bytes : List ℕ)
      → size ≤ length (view rest c)
      → IsNext rest Whole c size bytes c'
      → (length bytes ≡ size) × (c'.eof ≡ c.eof)
  full_read size c c' bytes le next = elim next.enough [
    | inl full ↦ full
    | inr (at_eof, seen, short) ↦ absurd (
        omega (
          arith,
          le,
          short,
          length-append bytes (view rest c'),
          ap (λ q. length q) next.moves.reads,
          ap (λ q. length q) seen,
        ))
  ]

  module _ (init : Option Z) (decode : Z → (input : List ℕ) → Decoded Z) where
    -- The rounds of the loop: at the target, and behind a read that gave something.
    skip-arrived :
        (rounds fuel target : ℕ) (c : Cookie Z)
        → c.logic_offset ≡ target
        → skip_rounds init decode (suc rounds) fuel target c ≡ done (moved target, c)
    unfolding skip_rounds arrive
    skip-arrived rounds fuel target c e =
        let e₁ : ltb c.logic_offset target ≡ false = ground (arith, e) in
        let e₂ : (c.logic_offset == target) ≡ true = ground (arith, e) in simp (e₁, e₂) refl

    skip-more :
        (rounds fuel target : ℕ) (c c' : Cookie Z) (bytes : List ℕ)
        → c.logic_offset < target
        → 0 < length bytes
        → zfile_read init decode fuel (min in_size (target - c.logic_offset)) c
          ≡ done (read bytes, c')
        → skip_rounds init decode (suc rounds) fuel target c
          ≡ skip_rounds init decode rounds fuel target c'
    unfolding skip_rounds after_skip
    skip-more rounds fuel target c c' [] lt some_read e = absurd (omega (arith, some_read))
    skip-more rounds fuel target c c' (b ∷ bytes) lt some_read e =
        let e₁ : ltb c.logic_offset target ≡ true = ground (arith, lt) in simp (e₁, e) refl

  -- Before a round: what the loop relies on.
  pub record Fit (fuel target : ℕ) (c : Cookie Z) : Type 0 where
    pub not_eof : c.eof ≡ false
    pub level : c.logic_offset ≡ c.decode_offset
    pub stand : Stands rest Whole c
    pub before : c.logic_offset ≤ target
    pub has : target - c.logic_offset ≤ length (view rest c)
    pub enough_fuel : to_do rest c + 1 < fuel

  -- Landed on the target, having seen the bytes before it.
  abbrev pub Lands : ℕ → Cookie Z → SeekEnd × Cookie Z → Type 0
  Lands target c (r, c') =
      (bytes : List ℕ) × (r ≡ moved target) × Moves rest c bytes c' × (c'.logic_offset ≡ target)

  module _ (init : Option Z) (decode : Z → (input : List ℕ) → Decoded Z)
      (v : Decodes rest Whole decode) where
    skip_piece :
        (rounds fuel target : ℕ) (c : Cookie Z)
        → Fit fuel target c
        → c.logic_offset < target
        → (c' : Cookie Z) × (bytes : List ℕ) × (skip_rounds init decode (suc rounds) fuel target c
            ≡ skip_rounds init decode rounds fuel target c')
          × Moves rest c bytes c'
          × Fit fuel target c'
          × (c.logic_offset < c'.logic_offset)
    skip_piece rounds fuel target c fit lt =
        let size = min in_size (target - c.logic_offset) in
        let size-le : size ≤ length (view rest c) = omega (arith, fit.has) in
        let ((r, c'), e, (bytes, e', next)) =
          zfile_read-IsNext rest Whole init decode v fuel size c fit.not_eof fit.level
            (Stands-Serves size c fit.stand size-le) fit.enough_fuel in
        let (full, kept) = full_read size c c' bytes size-le next in
        let m = next.moves in
        let len = length-append bytes (view rest c') in
        let len' = ap (λ q. length q) m.reads in
        let some_read : 0 < length bytes = omega (arith, full, lt) in
        (
          c',
          bytes,
          skip-more init decode rounds fuel target c c' bytes lt some_read
              (e ∙ ap (λ q. done (q, c')) e'),
          m,
          record {
            not_eof = kept ∙ fit.not_eof;
            level = omega (arith, fit.level, m.logic, m.decoded);
            stand = next.stands;
            before = omega (arith, m.logic, full, lt);
            has = omega (arith, m.logic, full, lt, len, len', fit.has);
            enough_fuel = omega (arith, m.fewer, fit.enough_fuel);
          },
          omega (arith, m.logic, some_read),
        )

    skip_rounds-Lands :
        (rounds fuel target : ℕ) (c : Cookie Z)
        → Fit fuel target c
        → target - c.logic_offset < rounds
        → Returns (skip_rounds init decode rounds fuel target c) (Lands target c)
    skip_rounds-Lands zero fuel target c fit lt = absurd (omega (arith, lt))
    skip_rounds-Lands (suc rounds) fuel target c fit lt = elim (dec_lt c.logic_offset target) [
      | no ge ↦
          let at : c.logic_offset ≡ target = omega (arith, ge, fit.before) in
          (
            (moved target, c),
            skip-arrived init decode rounds fuel target c at,
            (
              [],
              refl,
              record {
                reads = refl;
                logic = omega arith;
                decoded = omega arith;
                fewer = omega arith;
              },
              at,
            ),
          )
      | yes more ↦
          let (c', bytes, e, m, fit', further) = skip_piece rounds fuel target c fit more in
          let (r, e', (more_bytes, landed, n, at)) =
            skip_rounds-Lands rounds fuel target c' fit'
              (omega (arith, lt, further, fit'.before)) in
          (
            r,
            e ∙ e',
            (bytes ++ more_bytes, landed, Moves-append rest c c' r.1 bytes more_bytes m n, at),
          )
    ]

    -- Where zlib or lzma works as it documents, the end of the file is not noted and the offsets agree, and
    -- either the stream is whole or all is decompressed, a seek to an offset that is not 0, not before the
    -- current one and not behind the end of what is compressed lands there, if its reads have more rounds
    -- than there are input and output left, and one, and it more rounds than the offset. The bytes between
    -- the offsets are passed over, and no others.
    pub zfile_seek-Lands :
        (rounds fuel target : ℕ) (whence : Whence) (offset : ℤ) (c : Cookie Z)
        → new_offset c.logic_offset whence offset ≡ Option.some (pos target)
        → 0 < target
        → Fit fuel target c
        → target < rounds
        → Returns (zfile_seek init decode rounds fuel whence offset c) (Lands target c)
    unfolding zfile_seek seek_to arrive
    zfile_seek-Lands rounds fuel zero whence offset c e positive fit lt =
        absurd (omega (arith, positive))
    zfile_seek-Lands rounds fuel (suc n) whence offset c e positive fit lt =
        let e₁ : ltb (suc n) c.logic_offset ≡ false = ground (arith, fit.before) in
        elim (dec_lt c.logic_offset (suc n)) [
          | yes more ↦
              let e₂ : ltb c.logic_offset (suc n) ≡ true = ground (arith, more) in
              simp (e, e₁, e₂) (skip_rounds-Lands rounds fuel (suc n) c fit (omega (arith, lt)))
          | no ge ↦
              let at : c.logic_offset ≡ suc n = omega (arith, ge, fit.before) in
              let e₂ : ltb c.logic_offset (suc n) ≡ false = ground (arith, ge) in
              let e₃ : (c.logic_offset == suc n) ≡ true = ground (arith, at) in
              simp (e, e₁, e₂, e₃)
                (
                  (moved (suc n), c),
                  refl,
                  (
                    [],
                    refl,
                    record {
                      reads = refl;
                      logic = omega arith;
                      decoded = omega arith;
                      fewer = omega arith;
                    },
                    at,
                  ),
                )
        ]
