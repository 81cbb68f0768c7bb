-- ===== src/Zfile/Seek/Rewind.antt =====
-- A seek that is refused, and one to the start, which leaves the file where it is.
use the_silver_searcher.Base.{
  ℕ, zero, suc, ◌<◌, ◌≡◌, refl, ap, ◌∙◌, true, false, Option, List, [], ◌∷◌, length, drop, ltb,
  done, arith,
}
use the_silver_searcher.Zfile.{Decoded, Cookie, drain, exits, zfile_cookie_init, zfile_read}
use the_silver_searcher.Zfile.Truncated.{zfile_read-exits}
use the_silver_searcher.Base.Signed.{ℤ, pos, negsuc}
use the_silver_searcher.Zfile.Seek.{
  seek_set, moved, refused, new_offset, arrive, rewind, seek_to, zfile_seek,
}

module _ {Z : Type 0} (init : Option Z) (decode : Z → (input : List ℕ) → Decoded Z) where
  -- Where a seek may not go: no offset, a negative one, or one between the start and the current one.
  IsRefused : (logic_offset : ℕ) → Option ℤ → Type 0
  IsRefused logic_offset Option.none = Unit
  IsRefused logic_offset (Option.some (negsuc n)) = Unit
  IsRefused logic_offset (Option.some (pos n)) = (0 < n) × (n < logic_offset)

  seek_to-refused :
      (rounds fuel : ℕ) (c : Cookie Z) (target : Option ℤ)
      → IsRefused c.logic_offset target
      → seek_to init decode rounds fuel c target ≡ done (refused, c)
  unfolding seek_to IsRefused
  seek_to-refused rounds fuel c Option.none h = refl
  seek_to-refused rounds fuel c (Option.some (negsuc n)) h = refl
  seek_to-refused rounds fuel c (Option.some (pos zero)) (lt, _) = absurd (omega (arith, lt))
  seek_to-refused rounds fuel c (Option.some (pos (suc n))) (_, lt) =
      let e : ltb (suc n) c.logic_offset ≡ true = ground (arith, lt) in simp e refl

-- The cookie behind a seek to the start.
module _ {Z : Type 0} (z : Z) (decode : Z → (input : List ℕ) → Decoded Z) where
  rewind-moved : (c : Cookie Z) → (rewind (Option.some z) decode c).0 ≡ moved 0
  unfolding rewind arrive zfile_cookie_init
  rewind-moved c = refl

  rewound :
      (c : Cookie Z)
      → (((rewind (Option.some z) decode c).1.eof ≡ false)
          × ((rewind (Option.some z) decode c).1.logic_offset
              ≡ (rewind (Option.some z) decode c).1.decode_offset)
          × (length (rewind (Option.some z) decode c).1.avail ≡ 0)
          × ((rewind (Option.some z) decode c).1.unread ≡ c.unread)
          × ((rewind (Option.some z) decode c).1.outbuf ≡ []))
  unfolding rewind arrive zfile_cookie_init
  rewound c = (refl, refl, refl, refl, refl)

  drop-nil : (n : ℕ) (xs : List ℕ) → xs ≡ [] → length (drop n xs) ≡ 0
  drop-nil zero [] e = refl
  drop-nil (suc n) [] e = refl
  drop-nil n (x ∷ xs) e = absurd (omega (arith, ap (λ q. length q) e))

  seek-rewind :
      (rounds fuel : ℕ) (c : Cookie Z)
      → zfile_seek (Option.some z) decode rounds fuel seek_set (pos 0) c
        ≡ done (rewind (Option.some z) decode c)
  unfolding zfile_seek seek_to new_offset
  seek-rewind rounds fuel c = refl

  -- Where a new decoder can be made and all of the file has been read, a seek to the start is said to
  -- succeed, and a read behind it ends the program.
  pub zfile_read-rewound :
      (rounds fuel fuel' size : ℕ) (c : Cookie Z)
      → length c.unread ≡ 0
      → 0 < size
      → (c' c'' : Cookie Z) × (zfile_seek (Option.some z) decode rounds fuel seek_set (pos 0) c
          ≡ done (moved 0, c'))
        × (zfile_read (Option.some z) decode (suc fuel') size c' ≡ done (exits, c''))
  zfile_read-rewound rounds fuel fuel' size c all some_size =
      let c' = (rewind (Option.some z) decode c).1 in
      let (open_again, level, no_avail, same, no_output) = rewound c in
      (
        c',
        (drain size c').1,
        seek-rewind rounds fuel c ∙ ap (λ r. done (r, c')) (rewind-moved c),
        zfile_read-exits (Option.some z) decode fuel' size c' open_again level no_avail
            (ap (λ q. length q) same ∙ all)
            (omega (arith, some_size, drop-nil c'.outbuf_start c'.outbuf no_output)),
      )
