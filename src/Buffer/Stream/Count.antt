-- ===== src/Buffer/Stream/Count.antt =====
-- What `search_stream` returns of the results of the lines.
use mathlib.Core.Bool.{or-true, or-false}
use the_silver_searcher.Base.{
  ℕ, zero, suc, ◌+◌, ◌≤◌, ◌<◌, ◌≡◌, refl, sym, ap, ◌∙◌, Bool, true, false, ◌||◌, List, [], ◌∷◌,
  length, ◌==◌, if◌then◌else◌, done, Returns, arith, ne→==, lt→ltb,
}
use the_silver_searcher.Matcher.Occurrence.{IsFolded}
use the_silver_searcher.Print.{print_init_context, print_trailing_context}
use the_silver_searcher.Buffer.{BufOpts, World, Searched, skipped, matched, search_buf}
use the_silver_searcher.Buffer.Outcome.{search_buf-literal}
use the_silver_searcher.Buffer.Stream.{add_result, without_newline, stream_loop, search_stream}

-- The matches in all, and whether a line was left out.
pub total : List Searched → ℕ
total [] = 0
total (skipped ∷ rs) = total rs
total (matched n ∷ rs) = n + total rs

pub has_skipped : List Searched → Bool
has_skipped [] = false
has_skipped (skipped ∷ rs) = true
has_skipped (matched n ∷ rs) = has_skipped rs

-- The sum of the matches; if there are none, -1 where a line was left out.
abbrev pub verdict : (left : Bool) (n : ℕ) → Searched
verdict left n = if n == 0 then if left then skipped else matched 0 else matched n

verdict-suc : (left : Bool) (n : ℕ) → 0 < n → verdict left n ≡ matched n
verdict-suc left n pos = rw (ne→== n 0 (λ e. absurd (omega (arith, e, pos)))) refl

add_result-skipped : (left : Bool) (n : ℕ) → add_result (verdict left n) skipped ≡ verdict true n
unfolding add_result
add_result-skipped true zero = refl
add_result-skipped false zero = refl
add_result-skipped left (suc n) =
    rw (verdict-suc left (suc n) (omega arith), ne→== (suc n) 0 (λ e. absurd (omega (arith, e))))
      refl

add_result-matched :
    (left : Bool) (n r : ℕ) → add_result (verdict left n) (matched r) ≡ verdict left (n + r)
unfolding add_result
add_result-matched true zero zero = refl
add_result-matched true zero (suc r) =
    rw (lt→ltb 0 (suc r) (omega arith), verdict-suc true (0 + suc r) (omega arith))
      (ap matched (omega arith))
add_result-matched false zero zero = refl
add_result-matched false zero (suc r) =
    rw (verdict-suc false (0 + suc r) (omega arith)) (ap matched (omega arith))
add_result-matched left (suc n) r =
    rw (verdict-suc left (suc n) (omega arith), verdict-suc left (suc n + r) (omega arith)) refl

module _ (o : BufOpts) (path : List ℕ) where
  -- Behind a line its trailing context is printed.
  abbrev pub behind : (line : List ℕ) → World → World
  behind line w = record w {
    printer = print_trailing_context o.print path line 0 (without_newline line) w.printer;
  }

  -- The searches of the lines, one after the other, with their results.
  pub data Searches : (lines : List (List ℕ)) → World → List Searched → World → Type 0 where
    none : (w : World) → Searches [] w [] w
    next :
        (line : List ℕ) (lines : List (List ℕ)) (w w' w'' : World) (r : Searched)
        (rs : List Searched)
        → search_buf o path line w ≡ done (r, w')
        → Searches lines (behind line w') rs w''
        → Searches (line ∷ lines) w (r ∷ rs) w''

  module _ (literal : o.literal ≡ true) (plain : o.query.invert_match ≡ false)
      (pos : 0 < length o.query.query) (short : length o.query.query ≤ 16384)
      (folded : IsFolded o.query.case_insensitive o.query.query (length o.query.query)) where
    -- What the loop makes of the lines that are left.
    abbrev Sums :
        (lines : List (List ℕ)) (left : Bool) (n : ℕ) (w : World) → Searched × World → Type 0
    Sums lines left n w (r, w') =
        (rs : List Searched) × Searches lines w rs w'
        × (r ≡ verdict (left || has_skipped rs) (n + total rs))

    after_line :
        (line : List ℕ) (lines : List (List ℕ)) (left : Bool) (n : ℕ) (w w' : World) (r : Searched)
        → ((left' : Bool) (n' : ℕ) (v : World)
            → Returns (stream_loop o path lines (verdict left' n') v) (Sums lines left' n' v))
        → search_buf o path line w ≡ done (r, w')
        → Returns
            (stream_loop o path lines (add_result (verdict left n) r) (behind line w'))
            (Sums (line ∷ lines) left n w)
    unfolding total has_skipped
    after_line line lines left n w w' skipped again e =
        let ((r, w''), e', (rs, s, v)) = again true n (behind line w') in
        rw (add_result-skipped left n) (
          (r, w''),
          e',
          (
            skipped ∷ rs,
            next line lines w w' w'' skipped rs e s,
            v ∙ ap (λ b. verdict b (n + total rs)) (sym (or-true left)),
          ),
        )
    after_line line lines left n w w' (matched m) again e =
        let ((r, w''), e', (rs, s, v)) = again left (n + m) (behind line w') in
        rw (add_result-matched left n m) (
          (r, w''),
          e',
          (
            matched m ∷ rs,
            next line lines w w' w'' (matched m) rs e s,
            v ∙ ap (verdict (left || has_skipped rs)) (omega arith),
          ),
        )

    stream_loop-Sums :
        (lines : List (List ℕ)) (left : Bool) (n : ℕ) (w : World)
        → Returns (stream_loop o path lines (verdict left n) w) (Sums lines left n w)
    unfolding stream_loop total has_skipped
    stream_loop-Sums [] left n w = (
      (verdict left n, w),
      refl,
      (
        [],
        none w,
        ap (λ b. verdict b n) (sym (or-false left)) ∙ ap (verdict (left || false)) (omega arith),
      ),
    )
    stream_loop-Sums (line ∷ lines) left n w =
        let ((r, w'), e, _) = search_buf-literal o path line w literal plain pos short folded in
        simp (e) (after_line line lines left n w w' r (stream_loop-Sums lines) e)

    -- For a literal query of 1 to 16384 bytes, in lower case if case is ignored, without inversion, the search
    -- of a stream returns; all its lines are searched in turn, each with the trailing context behind it, and the
    -- result is the sum of the matches, or -1 if there are none and a line was left out as binary.
    pub search_stream-literal :
        (lines : List (List ℕ)) (w : World)
        → Returns (search_stream o path lines w) (λ (r, w').
          (rs : List Searched) × Searches lines
            (record w { printer = print_init_context w.printer })
            rs
            w'
          × (r ≡ verdict (has_skipped rs) (total rs)))
    unfolding search_stream
    search_stream-literal lines w =
        let new = record w { printer = print_init_context w.printer } in
        let ((r, w'), e, (rs, s, v)) = stream_loop-Sums lines false 0 new in
        ((r, w'), e, (rs, s, v ∙ ap (verdict (has_skipped rs)) (omega arith)))
