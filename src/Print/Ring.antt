-- ===== src/Print/Ring.antt =====
-- The ring of the lines before refines the list of the lines so far.
use native.Mathlib.Nat.{mod-eq-sub-mod, mod-eq_of_lt}
use the_silver_searcher.Base.{
  ℕ, zero, suc, ◌+◌, ◌-◌, ◌%◌, ◌≤◌, ◌<◌, ◌≡◌, ◌≢◌, refl, sym, ap, ◌∙◌, Option, none, some, List, [],
  ◌∷◌, get_elem?, update, if◌then◌else◌, arith, ne→==, eq→==, dec_lt,
}
use the_silver_searcher.Print.{
  PrintOpts, Printer, PathPrint, is_mode, print_path, print_line_number, sep_of, strndup,
  print_init_context, print_context_append,
}
use the_silver_searcher.Print.Written.{
  Written, Written-refl, Written-trans, emit-Written, each_path-Written, print_line_number-Written,
}
use the_silver_searcher.Print.Line.{Source}
use the_silver_searcher.Print.Matches.{number_before, print_prev_line, prev_lines_loop}

-- Where the line stands that is `j` lines older than the newest one.
abbrev slot : (before last j : ℕ) → ℕ
slot before last j = (last + (before - 1 - j)) % before

slot_near : (before last j : ℕ) → last < before → j < last → slot before last j ≡ last - 1 - j
slot_near before last j inside below =
    mod-eq-sub-mod (omega arith) ∙ mod-eq_of_lt (omega arith) ∙ omega arith

slot_far :
    (before last j : ℕ)
    → last < before
    → j < before
    → last ≤ j
    → slot before last j ≡ last + before - 1 - j
slot_far before last j inside below far = mod-eq_of_lt (omega arith) ∙ omega arith

wraps : (before last : ℕ) → last < before → ¬ (last + 1 < before) → (last + 1) % before ≡ 0
wraps before last inside end =
    mod-eq-sub-mod (omega arith) ∙ mod-eq_of_lt (omega arith) ∙ omega arith

-- The place of the next line, and those of the lines that it leaves.
slot_new : (before last : ℕ) → last < before → slot before ((last + 1) % before) 0 ≡ last
slot_new before last inside = elim (dec_lt (last + 1) before) [
  | yes lt ↦
      ap (λ l. slot before l 0) (mod-eq_of_lt lt)
      ∙ slot_near before (last + 1) 0 lt (omega arith)
      ∙ omega arith
  | no end ↦
      ap (λ l. slot before l 0) (wraps before last inside end)
      ∙ slot_far before 0 0 (omega arith) (omega arith) (omega arith)
      ∙ omega arith
]

slot_old :
    (before last j : ℕ)
    → last < before
    → suc j < before
    → (slot before ((last + 1) % before) (suc j) ≡ slot before last j) × (slot before last j ≢ last)
slot_old before last j inside below = elim (dec_lt (last + 1) before) [
  | yes lt ↦ elim (dec_lt j last) [
    | yes near ↦
        let old = slot_near before last j inside near in
        (
          ap (λ l. slot before l (suc j)) (mod-eq_of_lt lt)
              ∙ slot_near before (last + 1) (suc j) lt (omega arith)
              ∙ omega (arith, old),
          λ e. absurd (omega (arith, old)),
        )
    | no far ↦
        let old = slot_far before last j inside (omega arith) (omega arith) in
        (
          ap (λ l. slot before l (suc j)) (mod-eq_of_lt lt)
              ∙ slot_far before (last + 1) (suc j) lt below (omega arith)
              ∙ omega (arith, old),
          λ e. absurd (omega (arith, old)),
        )
  ]
  | no end ↦
      let old = slot_near before last j inside (omega arith) in
      (
        ap (λ l. slot before l (suc j)) (wraps before last inside end)
            ∙ slot_far before 0 (suc j) (omega arith) below (omega arith)
            ∙ omega (arith, old),
        λ e. absurd (omega (arith, old)),
      )
]

module _ (o : PrintOpts) where
  -- The ring holds the newest lines of `history`, which is ordered from the newest to the oldest.
  pub record IsRing (p : Printer) (history : List (List ℕ)) : Type 0 where
    pub inside : p.last_prev_line < o.before
    pub slots :
        (j : ℕ)
        → j < o.before
        → p.context_prev_lines (slot o.before p.last_prev_line j) ≡ get_elem? history j

  init-IsRing : (p : Printer) → 0 < o.before → IsRing (print_init_context p) []
  unfolding print_init_context
  init-IsRing p pos = record { inside = pos; slots = λ j lt. refl }

  print_context_append-IsRing :
      (p : Printer) (history : List (List ℕ)) (line : List ℕ) (len : ℕ)
      → IsRing p history
      → IsRing (print_context_append o p line len) (strndup line len ∷ history)
  unfolding print_context_append
  print_context_append-IsRing p history line len v =
      let l = p.last_prev_line in
      rw (ne→== o.before 0 (ground (arith, v.inside)))
        (record { inside = grind (arith, v.inside); slots = after })
    where
      after :
          (j : ℕ)
          → j < o.before
          → update p.context_prev_lines p.last_prev_line
              (some (strndup line len))
              (slot o.before ((p.last_prev_line + 1) % o.before) j)
            ≡ get_elem? (strndup line len ∷ history) j
      after zero lt =
          rw
            (
              slot_new o.before p.last_prev_line v.inside,
              eq→== p.last_prev_line p.last_prev_line refl,
            )
            refl
      after (suc j) lt =
          let (same, other) = slot_old o.before p.last_prev_line j v.inside lt in
          rw (same, ne→== p.last_prev_line (slot o.before p.last_prev_line j) (λ e. other (sym e)))
            (v.slots j (omega arith))

  -- A sequence of lines with their lengths, the first one first.
  pub append_lines : List (List ℕ × ℕ) → Printer → Printer
  append_lines [] p = p
  append_lines (l ∷ ls) p = append_lines ls (print_context_append o p l.0 l.1)

  pub newest_first : List (List ℕ × ℕ) → List (List ℕ) → List (List ℕ)
  newest_first [] history = history
  newest_first (l ∷ ls) history = newest_first ls (strndup l.0 l.1 ∷ history)

  append_lines-IsRing :
      (ls : List (List ℕ × ℕ)) (p : Printer) (history : List (List ℕ))
      → IsRing p history
      → IsRing (append_lines ls p) (newest_first ls history)
  unfolding append_lines newest_first
  append_lines-IsRing [] p history v = v
  append_lines-IsRing (l ∷ ls) p history v =
      append_lines-IsRing ls (print_context_append o p l.0 l.1) (strndup l.0 l.1 ∷ history)
        (print_context_append-IsRing p history l.0 l.1 v)

  module _ (s : Source) where
    -- The newest `k` lines of a history, the oldest of them first.
    pub print_newest : (k : ℕ) (history : List (List ℕ)) → Printer → Printer
    print_newest zero history p = p
    print_newest (suc m) history p =
        print_newest m history (print_prev_line o s (o.before - 1 - m) (get_elem? history m) p)

    pub print_prev_line-Written :
        (j : ℕ) (l : Option (List ℕ)) (p : Printer) → Written p (print_prev_line o s j l p)
    unfolding print_prev_line
    print_prev_line-Written j none p = Written-refl p
    print_prev_line-Written j (some l) p =
        let b = is_mode p.print_path PathPrint.each_line in
        let q = if b then print_path o s.path b':' p else p in
        let r = print_line_number o (number_before o s j p.line) (sep_of o) q in
        Written-trans p r _
          (Written-trans p q r (each_path-Written o b s.path b':' p)
            (print_line_number-Written o (number_before o s j p.line) (sep_of o) q))
          (emit-Written _ r)

    Written-IsRing :
        (p q : Printer) (history : List (List ℕ))
        → Written p q
        → IsRing p history
        → IsRing q history
    Written-IsRing p q history (more, e) v = rw e (record { inside = v.inside; slots = v.slots })

    prev_lines_loop-newest :
        (k : ℕ) (p : Printer) (history : List (List ℕ))
        → k ≤ o.before
        → IsRing p history
        → prev_lines_loop o s k (o.before - k) p ≡ print_newest k history p
    unfolding prev_lines_loop print_newest
    prev_lines_loop-newest zero p history le v = refl
    prev_lines_loop-newest (suc m) p history le v =
        let j = o.before - suc m in
        let same : p.context_prev_lines ((p.last_prev_line + j) % o.before) ≡ get_elem? history m =
          ap (λ i. p.context_prev_lines ((p.last_prev_line + i) % o.before)) (omega arith)
          ∙ v.slots m (omega arith) in
        let place : j ≡ o.before - 1 - m = omega arith in
        let q = print_prev_line o s (o.before - 1 - m) (get_elem? history m) p in
        ap (λ l. prev_lines_loop o s m (j + 1) (print_prev_line o s j l p)) same
        ∙ ap (λ i. prev_lines_loop o s m (i + 1) (print_prev_line o s i (get_elem? history m) p))
            place
        ∙ ap (λ i. prev_lines_loop o s m i q) (omega arith)
        ∙ prev_lines_loop-newest m q history (omega arith) (
            Written-IsRing p q history
              (print_prev_line-Written (o.before - 1 - m) (get_elem? history m) p) v)

    -- Whatever lines have been put into the ring of a new context, what is printed of its last `k` places is
    -- the newest `k` lines, the oldest of them first; nothing is printed for a line that there is not.
    pub prev_lines_loop-append_lines :
        (k : ℕ) (ls : List (List ℕ × ℕ)) (p : Printer)
        → 0 < o.before
        → k ≤ o.before
        → prev_lines_loop o s k (o.before - k) (append_lines ls (print_init_context p))
          ≡ print_newest k (newest_first ls []) (append_lines ls (print_init_context p))
    prev_lines_loop-append_lines k ls p pos le =
        prev_lines_loop-newest k (append_lines ls (print_init_context p)) (newest_first ls []) le
          (append_lines-IsRing ls (print_init_context p) [] (init-IsRing p pos))
