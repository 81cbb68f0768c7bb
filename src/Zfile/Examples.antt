-- ===== src/Zfile/Examples.antt =====
-- Runs on a format that ends with a 0 byte and has the bytes before it as they are, and the witnesses.
use the_silver_searcher.Base.{
  ℕ, zero, suc, ◌+◌, ◌≤◌, ◌<◌, ◌≡◌, ◌⊎◌, refl, ap, Bool, true, false, some, List, [], ◌∷◌, ◌++◌,
  length, done, Returns, arith, inl, inr,
}
use the_silver_searcher.Zfile.{
  goes_on, at_end, Decoded, Cookie, read, exits, drain, more_input, fill_input, after_decode,
  decode_more, read_rounds, zfile_cookie_init, decompress_open, zfile_read,
}
use the_silver_searcher.Zfile.View.{Decodes}
use the_silver_searcher.Zfile.Next.{IsNext, zfile_read-IsNext}
use the_silver_searcher.Zfile.Truncated.{zfile_read_lost}
use the_silver_searcher.Base.Signed.{pos}
use the_silver_searcher.Zfile.Seek.{◌+ℤ◌, seek_set, seek_cur, moved, new_offset, zfile_seek}
use the_silver_searcher.Zfile.Seek.Skip.{Fit, Lands, zfile_seek-Lands}
use the_silver_searcher.Zfile.Seek.Rewind.{zfile_read-rewound}

-- The state is whether the end has been seen.
abbrev plain_rest : Bool → List ℕ → List ℕ
plain_rest true i = []
plain_rest false [] = []
plain_rest false (zero ∷ i) = []
plain_rest false (suc b ∷ i) = suc b ∷ plain_rest false i

data PlainWhole : Bool → List ℕ → Type 0 where
  here : (i : List ℕ) → PlainWhole false (zero ∷ i)
  later : (b : ℕ) (i : List ℕ) → PlainWhole false i → PlainWhole false (suc b ∷ i)

abbrev cons_byte : ℕ → Decoded Bool → Decoded Bool
cons_byte b d = record d { bytes = b ∷ d.bytes }

abbrev plain_decode : Bool → List ℕ → Decoded Bool
plain_decode true i = record { coder = true; left = i; step = at_end; bytes = [] }
plain_decode false [] = record { coder = false; left = []; step = goes_on; bytes = [] }
plain_decode false (zero ∷ i) = record { coder = true; left = i; step = at_end; bytes = [] }
plain_decode false (suc b ∷ i) = cons_byte (suc b) (plain_decode false i)

some_input_lem : (z : Bool) (i : List ℕ) → PlainWhole z i → 0 < length i
some_input_lem true i w = elim w [ ]
some_input_lem false [] w = elim w [ ]
some_input_lem false (zero ∷ i) (here _) = omega arith
some_input_lem false (suc b ∷ i) (later _ _ w) = omega arith

splits_lem :
    (z : Bool) (avail unread : List ℕ)
    → PlainWhole z (avail ++ unread)
    → (plain_decode z avail).bytes
        ++ plain_rest (plain_decode z avail).coder ((plain_decode z avail).left ++ unread)
      ≡ plain_rest z (avail ++ unread)
splits_lem true avail unread w = refl
splits_lem false [] unread w = refl
splits_lem false (zero ∷ avail) unread w = refl
splits_lem false (suc b ∷ avail) unread (later _ _ w) =
    ap (λ q. suc b ∷ q) (splits_lem false avail unread w)

-- The last clause of the law, for any piece of input: with none, nothing is used up.
Goes : (avail unread : List ℕ) → ℕ → Type 0
Goes avail unread n =
    (((plain_decode false avail).step ≡ goes_on)
      × PlainWhole (plain_decode false avail).coder ((plain_decode false avail).left ++ unread)
      × (length (plain_decode false avail).left
            + length (
                plain_rest (plain_decode false avail).coder
                  ((plain_decode false avail).left ++ unread))
            + n
          ≤ length avail + length (plain_rest false (avail ++ unread))))
    ⊎ (((plain_decode false avail).step ≡ at_end)
        × (plain_rest (plain_decode false avail).coder ((plain_decode false avail).left ++ unread)
            ≡ [])
        × (length (plain_decode false avail).left ≤ length avail))

steps_lem :
    (avail unread : List ℕ) → PlainWhole false (avail ++ unread) → Goes avail unread (length avail)
unfolding Goes
steps_lem [] unread w = inl (refl, w, omega arith)
steps_lem (zero ∷ avail) unread w = inr (refl, refl, omega arith)
steps_lem (suc b ∷ avail) unread (later _ _ w) = elim (steps_lem avail unread w) [
  | inl (e, w', le) ↦ inl (e, w', omega (arith, le))
  | inr (e, all, le) ↦ inr (e, all, omega (arith, le))
]

plain_steps :
    (z : Bool) (avail unread : List ℕ)
    → 0 < length avail
    → PlainWhole z (avail ++ unread)
    → (((plain_decode z avail).step ≡ goes_on)
        × PlainWhole (plain_decode z avail).coder ((plain_decode z avail).left ++ unread)
        × (length (plain_decode z avail).left
              + length
                  (plain_rest (plain_decode z avail).coder ((plain_decode z avail).left ++ unread))
            < length avail + length (plain_rest z (avail ++ unread))))
      ⊎ (((plain_decode z avail).step ≡ at_end)
          × (plain_rest (plain_decode z avail).coder ((plain_decode z avail).left ++ unread) ≡ [])
          × (length (plain_decode z avail).left ≤ length avail))
unfolding Goes
plain_steps true avail unread some_byte w = elim w [ ]
plain_steps false avail unread some_byte w = elim (steps_lem avail unread w) [
  | inl (e, w', le) ↦ inl (e, w', omega (arith, le, some_byte))
  | inr ended ↦ inr ended
]

abbrev plain : Decodes plain_rest PlainWhole plain_decode
plain = record {
  some_input = some_input_lem;
  splits = λ z a u some_byte w. splits_lem z a u w;
  steps = plain_steps;
}

abbrev blank : Cookie Bool
blank = record {
  unread = [];
  avail = [];
  logic_offset = 7;
  decode_offset = 8;
  actual_len = 9;
  outbuf = (1 ∷ 2 ∷ []);
  outbuf_start = 1;
  coder = true;
  eof = true;
}

abbrev opened : Cookie Bool
opened = record {
  unread = (104 ∷ 105 ∷ 106 ∷ 107 ∷ 0 ∷ []);
  avail = [];
  logic_offset = 0;
  decode_offset = 0;
  actual_len = 0;
  outbuf = [];
  outbuf_start = 0;
  coder = false;
  eof = false;
}

-- Three of the four bytes have been read; the decoder has seen the end.
abbrev after_three : Cookie Bool
after_three = record {
  unread = [];
  avail = [];
  logic_offset = 3;
  decode_offset = 3;
  actual_len = 4;
  outbuf = (104 ∷ 105 ∷ 106 ∷ 107 ∷ []);
  outbuf_start = 3;
  coder = true;
  eof = false;
}

opened_lem :
    decompress_open (some false) plain_decode blank (104 ∷ 105 ∷ 106 ∷ 107 ∷ 0 ∷ []) ≡ some opened
unfolding decompress_open zfile_cookie_init
opened_lem = refl

read_three :
    zfile_read (some false) plain_decode 20 3 opened
    ≡ done (read (104 ∷ 105 ∷ 106 ∷ []), after_three)
unfolding zfile_read read_rounds drain more_input fill_input after_decode decode_more
read_three = refl

-- A file of four bytes, from which three and then two are read: it is taken to be truncated.
read_two_more :
    zfile_read (some false) plain_decode 20 2 after_three
    ≡ done (exits, record after_three { logic_offset = 4; decode_offset = 4; outbuf_start = 4 })
unfolding zfile_read read_rounds drain more_input fill_input after_decode decode_more
read_two_more = refl

-- Read at once, the end of it is noted.
read_five :
    elim (zfile_read (some false) plain_decode 20 5 opened) as (λ _. Bool) [
      | done (r, c) ↦ c.eof
      | _ ↦ false
    ]
    ≡ true
unfolding zfile_read read_rounds drain more_input fill_input after_decode decode_more
read_five = refl

opened_whole : PlainWhole false (104 ∷ 105 ∷ 106 ∷ 107 ∷ 0 ∷ [])
opened_whole = later 103 _ (later 104 _ (later 105 _ (later 106 _ (here []))))

zfile_read-IsNext_example : Returns (zfile_read (some false) plain_decode 20 3 opened) (λ (r, c').
    (bytes : List ℕ) × (r ≡ read bytes) × IsNext plain_rest PlainWhole opened 3 bytes c')
zfile_read-IsNext_example =
    zfile_read-IsNext plain_rest PlainWhole (some false) plain_decode plain 20 3 opened refl refl
      (inl opened_whole) (omega arith)

zfile_read_lost_example :
    (c c' c'' : Cookie Bool) × (decompress_open
        (some false)
        plain_decode
        blank
        (104 ∷ 105 ∷ 106 ∷ 107 ∷ 0 ∷ [])
      ≡ some c)
    × (zfile_read (some false) plain_decode (suc (suc 18)) 3 c
        ≡ done (read (104 ∷ 105 ∷ 106 ∷ []), c'))
    × (zfile_read (some false) plain_decode (suc 19) 2 c' ≡ done (exits, c''))
zfile_read_lost_example =
    zfile_read_lost (some false) plain_decode 18 19 3 2 blank false (104 ∷ 105 ∷ 106 ∷ 107 ∷ 0 ∷ [])
      refl (omega arith) (omega arith) refl refl (omega arith) (omega arith) (omega arith)

new_offset_lem : new_offset 0 seek_cur (pos 2) ≡ some (pos 2)
unfolding new_offset ◌+ℤ◌
new_offset_lem = refl

opened-Fit : Fit plain_rest PlainWhole 20 2 opened
opened-Fit = record {
  not_eof = refl;
  level = refl;
  stand = inl opened_whole;
  before = omega arith;
  has = omega arith;
  enough_fuel = omega arith;
}

zfile_seek-Lands_example :
    Returns
      (zfile_seek (some false) plain_decode 10 20 seek_cur (pos 2) opened)
      (Lands plain_rest PlainWhole 2 opened)
zfile_seek-Lands_example =
    zfile_seek-Lands plain_rest PlainWhole (some false) plain_decode plain 10 20 2 seek_cur (pos 2)
      opened new_offset_lem (omega arith) opened-Fit (omega arith)

zfile_read-rewound_example :
    (c' c'' : Cookie Bool) × (zfile_seek
        (some false)
        plain_decode
        10
        20
        seek_set
        (pos 0)
        after_three
      ≡ done (moved 0, c'))
    × (zfile_read (some false) plain_decode (suc 19) 4 c' ≡ done (exits, c''))
zfile_read-rewound_example =
    zfile_read-rewound false plain_decode 10 20 19 4 after_three refl (omega arith)
