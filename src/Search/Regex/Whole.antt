-- ===== src/Search/Regex/Whole.antt =====
-- The loop over the whole buffer returns, and its matches stand in order within the buffer.
use mathlib.Core.List.{append-nil, append_assoc}
use the_silver_searcher.Base.{
  ℕ, zero, suc, ◌+◌, ◌-◌, ◌≤◌, ◌<◌, ◌≡◌, refl, sym, ◌∙◌, some, List, [], ◌∷◌, ◌++◌, drop, length,
  if◌then◌else◌, Run, Returns, Bool-cases, Option-cases, inl, inr, arith, dec_lt, lt→ltb,
  not_lt→ltb, ◌==◌,
}
use the_silver_searcher.Search.{Match, Found, push, is_full}
use the_silver_searcher.Search.Promise.{Fits, push-Fits}
use the_silver_searcher.Search.Regex.{Regex, Input, next_offset, on_regex, multiline_loop}

-- What the documentation of `tre_regnexec` says of a match: its offsets stand in order, within the length.
abbrev pub IsRegex : Regex → Type 0
IsRegex regex =
    (s : List ℕ) (len : ℕ) (m : Match) → regex s len ≡ some m → (m.start ≤ m.end) × (m.end ≤ len)

-- The matches stand in order from byte `from` on, none reaching into the next, all within `to` bytes.
abbrev pub Ascending : (from to : ℕ) → List Match → Type 0
Ascending from to [] = Unit {0}
Ascending from to (m ∷ ms) =
    (from ≤ m.start)
    × (m.start ≤ m.end)
    × (m.end ≤ to)
    × Ascending (if m.start == m.end then m.end + 1 else m.end) to ms

module _ (regex : Regex) (ok : IsRegex regex) (s : Input) where
  -- What has been added from byte `off` on.
  pub record Ordered (f : Found) (off : ℕ) (f' : Found) : Type 0 where
    pub added : List Match
    pub behind : f'.matches ≡ f.matches ++ added
    pub order : Ascending off s.buf_len added
    pub fits : Fits s.spare f'

  nothing : (f : Found) (off : ℕ) → Fits s.spare f → Ordered f off f
  nothing f off room = record {
    added = [];
    behind = sym (append-nil f.matches);
    order = tt;
    fits = room;
  }

  on_regex-Ordered :
      (again : ℕ → Found → Run Found) (off : ℕ) (f : Found) (m : Match)
      → (m.start ≤ m.end) × (m.end ≤ s.buf_len - off)
      → off < s.buf_len
      → Fits s.spare f
      → ((off' : ℕ) (g : Found)
          → off < off'
          → Fits s.spare g
          → Returns (again off' g) (Ordered g off'))
      → Returns (on_regex s again off f (some m)) (Ordered f off)
  unfolding on_regex push next_offset
  on_regex-Ordered again off f m (le, inside) lt room ih =
      let found : Match = record { start = off + m.start; end = off + m.end } in
      let f' = push s.spare f found in
      let room' = push-Fits s.spare f found room in
      elim (Bool-cases (is_full s.max_matches (length f'.matches))) [
        | inl full ↦ rw full (
          f',
          refl,
          record {
            added = found ∷ [];
            behind = refl;
            order = (omega arith, omega arith, omega arith, tt);
            fits = room';
          },
        )
        | inr more ↦
            let (g, e, fin) = ih (next_offset found.start found.end) f' (ground arith) room' in
            rw more (
              g,
              e,
              record {
                added = found ∷ fin.added;
                behind = fin.behind ∙ append_assoc f.matches (found ∷ []) fin.added;
                order = (omega arith, omega arith, omega arith, fin.order);
                fits = fin.fits;
              },
            )
      ]

  -- Where a match is as the documentation says, the loop returns: it has added matches that stand in order
  -- from its first byte on, within the buffer, none reaching into the next and an empty one not met twice;
  -- and the array has room for them.
  pub multiline_loop-Ordered :
      (fuel off : ℕ) (f : Found)
      → s.buf_len - off < fuel
      → Fits s.spare f
      → Returns (multiline_loop regex s fuel off f) (Ordered f off)
  unfolding multiline_loop on_regex
  multiline_loop-Ordered zero off f m room = absurd (omega arith)
  multiline_loop-Ordered (suc fuel) off f m room = elim (dec_lt off s.buf_len) [
    | no over ↦ rw (not_lt→ltb _ _ over) (f, refl, nothing f off room)
    | yes lt ↦ rw (lt→ltb _ _ lt) (elim (Option-cases (regex (drop off s.buf) (s.buf_len - off))) [
      | inl e ↦ rw (e, on_regex) (f, refl, nothing f off room)
      | inr (r, e) ↦ rw e (
          on_regex-Ordered (multiline_loop regex s fuel) off f r
            (ok (drop off s.buf) (s.buf_len - off) r e) lt room
            (λ off' g after room'. multiline_loop-Ordered fuel off' g (omega arith) room'))
    ])
  ]
