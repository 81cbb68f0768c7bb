-- ===== src/Invert/Apart.antt =====
-- The inversion of matches in order returns; what it gives touches no match, and fits in the array.
use the_silver_searcher.Base.{
  ℕ, zero, suc, ◌+◌, ◌-◌, ◌≤◌, ◌<◌, ◌≡◌, refl, ap, ◌∙◌, ◌⊎◌, inl, inr, true, false, ◌&&◌, List, at,
  ltb, ◌==◌, if◌then◌else◌, update, Returns, arith, dec_lt, ℕ_discrete, lt→ltb, not_lt→ltb, eq→==,
  ne→==, Bool-cases,
}
use the_silver_searcher.Search.{Match}
use the_silver_searcher.Invert.{
  State, emit, at_match, at_newline, round, invert_loop, start_state, invert_matches,
}

-- No byte of the entry from `e.start` to `e.end` lies in the match.
abbrev pub Apart : Match → Match → Type 0
Apart e m = (e.end < m.start) ⊎ (m.end ≤ e.start)

-- The matches of a search: none empty, in order, none reaching into the next, all within the buffer.
pub record InOrder (m : ℕ → Match) (len buf_len : ℕ) : Type 0 where
  pub filled : (j : ℕ) → j < len → (m j).start < (m j).end
  pub order : (j k : ℕ) → j < k → k < len → (m j).end ≤ (m k).start
  pub inside : (j : ℕ) → j < len → (m j).end ≤ buf_len

-- The loop at byte `i`: the matches before `read_index` are behind, the others ahead and not yet
-- overwritten; and every entry that is written touches no match.
record Inv (m : ℕ → Match) (len buf_len i : ℕ) (s : State) : Type 0 where
  unread : (j : ℕ) → s.read_index ≤ j → j < len → s.matches j ≡ m j
  coming : s.read_index < len → s.next ≡ m s.read_index
  gone : len ≤ s.read_index → s.next.start < i
  ahead : (j : ℕ) → s.read_index ≤ j → j < len → i ≤ (m j).start
  clear : s.in_inverted ≡ true → (j : ℕ) → j < s.read_index → j < len → (m j).end ≤ s.start
  past : (j : ℕ) → j < s.read_index → j < len → (m j).end ≤ i
  line : s.last_line_end ≤ i
  begun : s.start ≤ i
  read : s.read_index ≤ len
  counted : i < buf_len → s.count ≤ s.read_index
  room : s.count ≤ s.read_index + 1
  apart : (k j : ℕ) → k < s.count → j < len → Apart (s.matches k) (m j)

module _ (buf : List ℕ) (m : ℕ → Match) (len buf_len : ℕ) (good : InOrder m len buf_len) where
  -- A line end.
  at_newline-Inv :
      (i : ℕ) (s : State)
      → i < buf_len
      → Inv m len buf_len i s
      → (s.read_index < len → i < (m s.read_index).start)
      → Inv m len buf_len (i + 1) (at_newline i s)
  unfolding at_newline
  at_newline-Inv i s lt v later = record {
    unread = v.unread;
    coming = v.coming;
    gone = λ h. omega (arith, v.gone h);
    ahead = λ j le h.
        ground (arith, v.ahead j, later, good.order s.read_index j, good.filled s.read_index);
    clear = λ _ j below h. elim (Bool-cases s.in_inverted) [
      | inl e ↦ rw e (v.clear e j below h)
      | inr e ↦ rw e (omega (arith, v.past j below h))
    ];
    past = λ j below h. omega (arith, v.past j below h);
    line = omega arith;
    begun = ground (arith, v.begun);
    read = v.read;
    counted = λ h. v.counted lt;
    room = v.room;
    apart = v.apart;
  }

  -- A byte at which nothing happens.
  plain-Inv :
      (i : ℕ) (s : State)
      → i < buf_len
      → Inv m len buf_len i s
      → (s.read_index < len → i < (m s.read_index).start)
      → Inv m len buf_len (i + 1) s
  plain-Inv i s lt v later = record {
    unread = v.unread;
    coming = v.coming;
    gone = λ h. omega (arith, v.gone h);
    ahead = λ j le h.
        ground (arith, v.ahead j, later, good.order s.read_index j, good.filled s.read_index);
    clear = v.clear;
    past = λ j below h. omega (arith, v.past j below h);
    line = omega (arith, v.line);
    begun = omega (arith, v.begun);
    read = v.read;
    counted = λ h. v.counted lt;
    room = v.room;
    apart = v.apart;
  }

  -- The last byte, where no match has been met since the last line.
  last-Inv :
      (i : ℕ) (s : State)
      → i + 1 ≡ buf_len
      → s.in_inverted ≡ true
      → Inv m len buf_len i s
      → (s.read_index < len → i < (m s.read_index).start)
      → Inv m len buf_len (i + 1) (emit s i)
  last-Inv i s e inverted v later = record {
    unread = λ j le h. ground (
      arith,
      v.unread j,
      v.counted (omega arith),
      good.filled j,
      good.inside j,
      v.ahead j,
      later,
      good.order s.read_index j,
      good.filled s.read_index,
    );
    coming = v.coming;
    gone = λ h. omega (arith, v.gone h);
    ahead = λ j le h.
        ground (arith, v.ahead j, later, good.order s.read_index j, good.filled s.read_index);
    clear = v.clear;
    past = λ j below h. omega (arith, v.past j below h);
    line = omega (arith, v.line);
    begun = omega (arith, v.begun);
    read = v.read;
    counted = λ h. absurd (omega arith);
    room = omega (arith, v.counted (omega arith));
    apart = λ k j below h. elim (ℕ_discrete s.count k) [
      | yes new ↦ rw (eq→== _ _ new) (elim (dec_lt j s.read_index) [
        | yes seen ↦ inr (v.clear inverted j seen h)
        | no unseen ↦
            inl (
              ground (arith, v.ahead j, later, good.order s.read_index j, good.filled s.read_index))
      ])
      | no old ↦ rw (ne→== _ _ old) (v.apart k j (omega arith) h)
    ];
  }

  -- The start of a match.
  module _ (i : ℕ) (s : State) (lt : i < buf_len) (v : Inv m len buf_len i s)
      (e : i ≡ s.next.start) where
    unfinished : s.read_index < len
    unfinished = elim (dec_lt s.read_index len) [
      | yes h ↦ h
      | no h ↦ absurd (omega (arith, v.gone (omega arith)))
    ]

    here : i ≡ (m s.read_index).start
    here = e ∙ ap (λ (x : Match). x.start) (v.coming unfinished)

    there : s.next.end ≡ (m s.read_index).end
    there = ap (λ (x : Match). x.end) (v.coming unfinished)

    -- The match that is read next.
    following : Match
    following = if ltb (s.read_index + 1) len then s.matches (s.read_index + 1) else s.next

    following-coming : s.read_index + 1 < len → following ≡ m (s.read_index + 1)
    unfolding following
    following-coming h = rw (lt→ltb _ _ h) (v.unread (s.read_index + 1) (omega arith) h)

    following-gone : len ≤ s.read_index + 1 → following ≡ m s.read_index
    unfolding following
    following-gone h = rw (not_lt→ltb (s.read_index + 1) len (omega arith)) (v.coming unfinished)

    -- The loop goes on behind the match, whatever has been written.
    moved-Inv :
        (matches : ℕ → Match) (count : ℕ)
        → ((j : ℕ) → s.read_index < j → j < len → matches j ≡ m j)
        → count ≤ s.read_index + 1
        → ((k j : ℕ) → k < count → j < len → Apart (matches k) (m j))
        → Inv m len buf_len s.next.end (record s {
          matches = matches;
          count = count;
          read_index = s.read_index + 1;
          next = following;
          in_inverted = false;
        })
    moved-Inv matches count kept bounded apart = record {
      unread = λ j le h. kept j (omega arith) h;
      coming = following-coming;
      gone = λ h. ground (arith, following-gone h, there, good.filled s.read_index unfinished);
      ahead = λ j le h. omega (arith, there, good.order s.read_index j (omega arith) h);
      clear = λ f. cc;
      past = λ j below h. elim (ℕ_discrete j s.read_index) [
        | yes last ↦ rw (last, there) (omega arith)
        | no before ↦
            omega
              (arith, v.past j (omega arith) h, there, here, good.filled s.read_index unfinished)
      ];
      line = omega (arith, v.line, there, here, good.filled s.read_index unfinished);
      begun = omega (arith, v.begun, there, here, good.filled s.read_index unfinished);
      read = omega (arith, unfinished);
      counted = λ h. bounded;
      room = omega arith;
      apart = apart;
    }

    at_match-Inv : Inv m len buf_len s.next.end (at_match len s)
    unfolding at_match following
    at_match-Inv = elim (Bool-cases (s.in_inverted && ltb s.start s.last_line_end)) [
      | inl write ↦ rw write (
          moved-Inv
            (update s.matches s.count (record { start = s.start; end = s.last_line_end - 1 }))
            (s.count + 1) (λ j le h. ground (arith, v.counted lt, v.unread j (omega arith) h))
            (omega (arith, v.counted lt))
            (λ k j below h. elim (ℕ_discrete s.count k) [
              | yes new ↦ rw (eq→== _ _ new) (elim (dec_lt j s.read_index) [
                | yes seen ↦ inr (v.clear (ground (arith, write)) j seen h)
                | no unseen ↦ inl (ground (arith, v.ahead j, v.line, write))
              ])
              | no old ↦ rw (ne→== _ _ old) (v.apart k j (omega arith) h)
            ]))
      | inr quiet ↦ rw quiet (
          moved-Inv s.matches s.count (λ j le h. v.unread j (omega arith) h)
            (omega (arith, v.counted lt)) v.apart)
    ]

  round-Inv :
      (i : ℕ) (s : State)
      → i < buf_len
      → Inv m len buf_len i s
      → (i < (round buf buf_len len i s).0)
        × Inv m len buf_len (round buf buf_len len i s).0 (round buf buf_len len i s).1
  unfolding round
  round-Inv i s lt v = elim (ℕ_discrete i s.next.start) [
    | yes e ↦ rw (eq→== _ _ e) (
      omega (
        arith,
        here i s lt v e,
        there i s lt v e,
        good.filled s.read_index (unfinished i s lt v e),
      ),
      at_match-Inv i s lt v e,
    )
    | no ne ↦
        let later : s.read_index < len → i < (m s.read_index).start =
          λ h. ground (arith, v.coming h, v.ahead s.read_index, ne) in
        rw (ne→== _ _ ne) (elim (Bool-cases (i == buf_len - 1 && s.in_inverted)) [
          | inl end ↦
              rw end (omega arith, last-Inv i s (ground (arith, end)) (ground (arith, end)) v later)
          | inr more ↦ rw more (elim (Bool-cases (at buf i == b'\n')) [
            | inl newline ↦ rw newline (omega arith, at_newline-Inv i s lt v later)
            | inr other ↦ rw other (omega arith, plain-Inv i s lt v later)
          ])
        ])
  ]

  invert_loop-Inv :
      (fuel i : ℕ) (s : State)
      → buf_len - i < fuel
      → Inv m len buf_len i s
      → Returns (invert_loop buf buf_len len fuel i s) (λ t.
        (t.count ≤ len + 1) × ((k j : ℕ) → k < t.count → j < len → Apart (t.matches k) (m j)))
  unfolding invert_loop
  invert_loop-Inv zero i s h v = absurd (omega arith)
  invert_loop-Inv (suc fuel) i s h v = elim (dec_lt i buf_len) [
    | no over ↦ rw (not_lt→ltb _ _ over) (s, refl, (omega (arith, v.room, v.read), v.apart))
    | yes lt ↦
        let (on, v') = round-Inv i s lt v in
        rw (lt→ltb _ _ lt) (
          invert_loop-Inv fuel (round buf buf_len len i s).0 (round buf buf_len len i s).1
            (omega arith) v')
  ]

-- Where there is a match and the matches are in order, none of them empty, a run of one round more than the
-- buffer has bytes returns; the entries that it gives are at most one more than the matches, and no byte
-- of an entry lies in a match.
pub invert_matches-Apart :
    (buf : List ℕ) (m : ℕ → Match) (len buf_len : ℕ)
    → 0 < len
    → InOrder m len buf_len
    → Returns
        (invert_matches buf buf_len (buf_len + 1) m len)
        (λ r. (r.0 ≤ len + 1) × ((k j : ℕ) → k < r.0 → j < len → Apart (r.1 k) (m j)))
unfolding invert_matches
invert_matches-Apart buf m len buf_len some_match good =
    let (s, e, q) =
      invert_loop-Inv buf m len buf_len good (buf_len + 1) 0 (start_state m) (omega arith) (record {
        unread = λ j le h. refl;
        coming = λ h. refl;
        gone = λ h. absurd (omega arith);
        ahead = λ j le h. omega arith;
        clear = λ f j below. absurd (omega arith);
        past = λ j below. absurd (omega arith);
        line = omega arith;
        begun = omega arith;
        read = omega arith;
        counted = λ h. omega arith;
        room = omega arith;
        apart = λ k j below. absurd (omega arith);
      }) in
    rw (ne→== _ _ (λ (z : len ≡ 0). absurd (omega arith)), e) ((s.count, s.matches), refl, q)
