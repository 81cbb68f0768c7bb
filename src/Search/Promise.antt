-- ===== src/Search/Promise.antt =====
-- The loop of `search_buf` for a literal query keeps the promise of `Scan`, within its memory.
use mathlib.Core.List.{append-nil, append_assoc}
use the_silver_searcher.Base.{
  ℕ, zero, suc, ◌+◌, ◌-◌, ◌≤◌, ◌<◌, ◌≡◌, refl, sym, ap, ◌∙◌, Bool, true, false, Option, none, some,
  List, [], ◌∷◌, ◌++◌, if◌then◌else◌, at, at-drop, drop, length, length-append, Run, done, Returns,
  Bool-cases, inl, inr, arith, dec_lt, lt→ltb, not_lt→ltb,
}
use the_silver_searcher.Matcher.Occurrence.{fold_case, Occurs, IsFirst}
use the_silver_searcher.Matcher.FindSkip.{IsShift, IsSkip}
use the_silver_searcher.Search.{is_full, Match, Found, push}
use the_silver_searcher.Search.Literal.{Literal, on_match, on_result, literal_loop}
use the_silver_searcher.Search.Scan.{
  Free, Next, rejected, match_at, Scan, none_left, pass, take_last, take_more, Scan-back,
}

-- The array has room for the matches, and for the spare ones.
abbrev pub Fits : ℕ → Found → Type 0
Fits spare f = length f.matches + spare ≤ f.size

pub push-Fits : (spare : ℕ) (f : Found) (m : Match) → Fits spare f → Fits spare (push spare f m)
unfolding push
push-Fits spare f m h = ground (arith, length-append f.matches (m ∷ []))

module _ (ci : Bool) (find : List ℕ) (l : Literal) where
  Occurs-drop :
      (off k j : ℕ)
      → j ≡ off + k
      → Occurs ci find l.query_len (drop off l.buf) k
      → Occurs ci find l.query_len l.buf j
  Occurs-drop off k j e occ t lt =
      ap (λ c. fold_case ci c) (ap (at l.buf) (omega arith) ∙ sym (at-drop off l.buf (k + t)))
      ∙ occ t lt

  Occurs-undrop :
      (off k j : ℕ)
      → j ≡ off + k
      → Occurs ci find l.query_len l.buf j
      → Occurs ci find l.query_len (drop off l.buf) k
  Occurs-undrop off k j e occ t lt =
      ap (λ c. fold_case ci c) (at-drop off l.buf (k + t) ∙ ap (at l.buf) (omega arith)) ∙ occ t lt

  -- The first occurrence in the rest of the buffer is the next one.
  IsFirst-Next :
      (off k : ℕ)
      → off ≤ l.buf_len
      → IsFirst ci find l.query_len (drop off l.buf) (l.buf_len - off) (some k)
      → Next ci find l off (off + k)
  IsFirst-Next off k le (fits, occ, first) = record {
    after = omega arith;
    fits = omega arith;
    occurs = Occurs-drop off k (off + k) refl occ;
    first = λ j ge lt room occ'.
        first (j - off) (omega arith) (Occurs-undrop off (j - off) j (omega arith) occ');
  }

  IsFirst-Free :
      (off : ℕ)
      → off ≤ l.buf_len
      → IsFirst ci find l.query_len (drop off l.buf) (l.buf_len - off) none
      → Free ci find l off l.buf_len
  IsFirst-Free off le absent j ge lt room occ =
      absent (j - off) (omega arith) (Occurs-undrop off (j - off) j (omega arith) occ)

  -- Two occurrences overlap only by a period of the query, which the table of skips knows.
  skip-Free :
      IsSkip find l.query_len 0 (l.find_skip 0)
      → 0 < l.query_len
      → (p : ℕ) → Occurs ci find l.query_len l.buf p
      → Free ci find l (suc p) (p + (l.find_skip 0 - l.query_len + 1))
  skip-Free skips pos p occ j le lt room occ' =
      let d = j - p in
      let shift : IsShift find l.query_len 0 d = record {
        behind = λ k h room'.
            sym (occ' k (omega arith))
            ∙ ap (λ c. fold_case ci (at l.buf c)) (omega arith)
            ∙ occ (k + d) room';
        differs = λ k e. absurd (omega arith);
      } in
      omega (arith, skips.safe d (omega arith) shift, skips.moves)

module _ (ci : Bool) (find : List ℕ) (l : Literal) (strnstr : List ℕ → ℕ → Run (Option ℕ))
    (finds : (s : List ℕ) (s_len : ℕ)
      → Returns (strnstr s s_len) (IsFirst ci find l.query_len s s_len))
    (skips : IsSkip find l.query_len 0 (l.find_skip 0)) (pos : 0 < l.query_len) where
  -- What has been added from byte `off` on is a scan, and it fits in the memory.
  pub record Finished (f : Found) (off : ℕ) (f' : Found) : Type 0 where
    pub added : List Match
    pub behind : f'.matches ≡ f.matches ++ added
    pub scan : Scan ci find l (length f.matches) off added
    pub fits : Fits l.spare f'

  -- What the next rounds do.
  abbrev Later : (off : ℕ) → (ℕ → Found → Run Found) → Type 0
  Later off again =
      (off' : ℕ) (f : Found)
      → off < off'
      → Fits l.spare f
      → Returns (again off' f) (Finished f off')

  passed :
      (again : ℕ → Found → Run Found) (off p : ℕ) (f : Found)
      → Next ci find l off p
      → rejected ci find l p ≡ true
      → Fits l.spare f
      → Later off again
      → Returns (again (p + (l.find_skip 0 - l.query_len + 1)) f) (Finished f off)
  passed again off p f next r room ih =
      let to = p + (l.find_skip 0 - l.query_len + 1) in
      let (f', e, fin) = ih to f (omega (arith, next.after)) room in
      (
        f',
        e,
        record {
          added = fin.added;
          behind = fin.behind;
          scan = pass p next r (
              Scan-back ci find l (omega arith) (skip-Free ci find l skips pos p next.occurs)
                fin.scan);
          fits = fin.fits;
        },
      )

  taken :
      (again : ℕ → Found → Run Found) (off p : ℕ) (f : Found)
      → Next ci find l off p
      → rejected ci find l p ≡ false
      → Fits l.spare f
      → Later off again
      → Returns
          (if is_full l.max_matches (length (push l.spare f (match_at ci find l p)).matches)
            then done (push l.spare f (match_at ci find l p))
            else again (p + l.query_len) (push l.spare f (match_at ci find l p)))
          (Finished f off)
  unfolding push
  taken again off p f next r room ih =
      let f' = push l.spare f (match_at ci find l p) in
      let room' = push-Fits l.spare f (match_at ci find l p) room in
      let n : length f'.matches ≡ suc (length f.matches) =
        omega (arith, length-append f.matches (match_at ci find l p ∷ [])) in
      elim (Bool-cases (is_full l.max_matches (suc (length f.matches)))) [
        | inl full ↦
            rw (n, full)
              (
                f',
                refl,
                record {
                  added = match_at ci find l p ∷ [];
                  behind = refl;
                  scan = take_last p next r full;
                  fits = room';
                },
              )
        | inr more ↦
            let (g, e, fin) = ih (p + l.query_len) f' (omega (arith, next.after)) room' in
            rw (n, more)
              (
                g,
                e,
                record {
                  added = match_at ci find l p ∷ fin.added;
                  behind =
                      fin.behind ∙ append_assoc f.matches (match_at ci find l p ∷ []) fin.added;
                  scan = take_more p next r more (rw n at (fin.scan));
                  fits = fin.fits;
                },
              )
      ]

  on_match-Finished :
      (again : ℕ → Found → Run Found) (off p : ℕ) (f : Found)
      → Next ci find l off p
      → Fits l.spare f
      → Later off again
      → Returns (on_match l again f p) (Finished f off)
  unfolding on_match
  on_match-Finished again off p f next room ih = elim (Bool-cases (rejected ci find l p)) [
    | inl r ↦ rw r (passed again off p f next r room ih)
    | inr r ↦ rw r (taken again off p f next r room ih)
  ]

  on_result-Finished :
      (again : ℕ → Found → Run Found) (off : ℕ) (f : Found) (r : Option ℕ)
      → off ≤ l.buf_len
      → IsFirst ci find l.query_len (drop off l.buf) (l.buf_len - off) r
      → Fits l.spare f
      → Later off again
      → Returns (on_result l again off f (done r)) (Finished f off)
  unfolding on_result
  on_result-Finished again off f none le first room ih = (
    f,
    refl,
    record {
      added = [];
      behind = sym (append-nil f.matches);
      scan = none_left (IsFirst-Free ci find l off le first);
      fits = room;
    },
  )
  on_result-Finished again off f (some k) le first room ih =
      on_match-Finished again off (off + k) f (IsFirst-Next ci find l off k le first) room ih

  pub literal_loop-Finished :
      (fuel off : ℕ) (f : Found)
      → l.buf_len - off < fuel
      → Fits l.spare f
      → Returns (literal_loop strnstr l fuel off f) (Finished f off)
  unfolding literal_loop
  literal_loop-Finished zero off f m room = absurd (omega arith)
  literal_loop-Finished (suc fuel) off f m room = elim (dec_lt off l.buf_len) [
    | no over ↦ rw (not_lt→ltb _ _ over) (
      f,
      refl,
      record {
        added = [];
        behind = sym (append-nil f.matches);
        scan = none_left (λ j le lt. absurd (omega arith));
        fits = room;
      },
    )
    | yes lt ↦
        let (r, e, first) = finds (drop off l.buf) (l.buf_len - off) in
        rw (lt→ltb _ _ lt, e)
          (on_result-Finished (literal_loop strnstr l fuel) off f r (omega arith) first room
            (λ off' f' after room'. literal_loop-Finished fuel off' f' (omega arith) room'))
  ]
