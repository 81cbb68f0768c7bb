-- ===== src/Print/Line/Keeps.antt =====
-- What prints the line of a match leaves the line number and the start of the line as they are.
use the_silver_searcher.Base.{
  ℕ, zero, suc, ◌+◌, ◌-◌, ◌≡◌, refl, ap, ◌∙◌, Bool, true, false, not, ◌&&◌, ◌||◌, List, [], ◌∷◌, at,
  ltb, ◌==◌, if◌then◌else◌, Bool-cases, inl, inr,
}
use the_silver_searcher.Print.{
  PathPrint, is_mode, char, PrintOpts, Printer, emit, print_path, print_line_number,
  print_column_number, print_line, color_reset, sep_of,
}
use the_silver_searcher.Print.Written.{
  Written, print_path-Written, print_line_number-Written, print_column_number-Written,
  print_line-Written, each_path-Written,
}
use the_silver_searcher.Print.Line.{
  Source, emit_if, close_match, truncate, truncate_marker, open_match, print_char, chars_loop,
  is_too_wide, print_marked, ackmate_loop, print_for_ackmate, vimgrep_loop, print_match_line,
  ends_at, starts_at,
}

-- The printer stays in the same line.
abbrev pub Keeps : Printer → Printer → Type 0
Keeps p q = (q.line ≡ p.line) × (q.prev_line_offset ≡ p.prev_line_offset)

pub Keeps-refl : (p : Printer) → Keeps p p
Keeps-refl p = (refl, refl)

pub Keeps-trans : (p q r : Printer) → Keeps p q → Keeps q r → Keeps p r
Keeps-trans p q r (a, b) (c, d) = (c ∙ a, d ∙ b)

pub Written-Keeps : (p q : Printer) → Written p q → Keeps p q
Written-Keeps p q (more, e) =
    (ap (λ (r : Printer). r.line) e, ap (λ (r : Printer). r.prev_line_offset) e)

pub if-Keeps : (b : Bool) (p q r : Printer) → Keeps p q → Keeps p r → Keeps p (if b then q else r)
if-Keeps true p q r h g = h
if-Keeps false p q r h g = g

pub emit_if-Keeps : (b : Bool) (s : List ℕ) (p : Printer) → Keeps p (emit_if b s p)
emit_if-Keeps true s p = (refl, refl)
emit_if-Keeps false s p = (refl, refl)

module _ (o : PrintOpts) (s : Source) where
  close_match-Keeps : (j : ℕ) (b : Bool) (p : Printer) → Keeps p (close_match o s j (b, p)).1
  unfolding close_match
  close_match-Keeps j b p = elim (Bool-cases (ends_at o s j p)) [
    | inl ends ↦
        let closed = emit_if o.color color_reset p in
        let q = record closed {
          printing_a_match = false;
          last_printed_match = p.last_printed_match + 1;
        } in
        rw ends (
          Keeps-trans p q (emit_if o.only_matching (b'\n' ∷ []) q)
            (emit_if-Keeps o.color color_reset p) (emit_if-Keeps o.only_matching (b'\n' ∷ []) q))
    | inr other ↦ rw other (Keeps-refl p)
  ]

  truncate-Keeps : (i j : ℕ) (p : Printer) → Keeps p (truncate o s i j p)
  unfolding truncate
  truncate-Keeps i j p = emit_if-Keeps (ltb j i) truncate_marker p

  open_match-Keeps : (j : ℕ) (b : Bool) (p : Printer) → Keeps p (open_match o s j b p)
  unfolding open_match
  open_match-Keeps j b p =
      let path =
        if is_mode p.print_path PathPrint.each_line then print_path o s.path b':' p else p in
      let r = print_line_number o p.line b':' path in
      let m = s.matches p.last_printed_match in
      let placed = if o.column then print_column_number m p.prev_line_offset b':' r else r in
      let q = if o.only_matching && b then placed else p in
      let last = record (emit_if o.color o.color_match q) { printing_a_match = true } in
      let r-Keeps =
        Keeps-trans p path r
          (Written-Keeps p path
            (each_path-Written o (is_mode p.print_path PathPrint.each_line) s.path b':' p))
          (Written-Keeps path r (print_line_number-Written o p.line b':' path)) in
      let placed-Keeps =
        if-Keeps o.column p (print_column_number m p.prev_line_offset b':' r) r
          (Keeps-trans p r (print_column_number m p.prev_line_offset b':' r) r-Keeps (
            Written-Keeps r (print_column_number m p.prev_line_offset b':' r)
              (print_column_number-Written o m p.prev_line_offset b':' r)))
          r-Keeps in
      if-Keeps (starts_at o s j p) p last p
        (Keeps-trans p q last
          (if-Keeps (o.only_matching && b) p placed p placed-Keeps (Keeps-refl p))
          (emit_if-Keeps o.color o.color_match q))
        (Keeps-refl p)

  print_char-Keeps : (j : ℕ) (p : Printer) → Keeps p (print_char o s j p)
  unfolding print_char
  print_char-Keeps j p =
      if-Keeps
        (ltb j s.buf_len
          && (not o.only_matching || p.printing_a_match)
          && (o.width == 0 || ltb (j - p.prev_line_offset) o.width))
        p (emit (char (at s.buf j) ∷ []) p) p (refl, refl) (refl, refl)

  chars_loop-Keeps :
      (i rounds j : ℕ) (b : Bool) (p : Printer) → Keeps p (chars_loop o s i rounds j (b, p))
  unfolding chars_loop
  chars_loop-Keeps i zero j b p = (refl, refl)
  chars_loop-Keeps i (suc rounds) j b p =
      let q = (close_match o s j (b, p)).1 in
      let b' = (close_match o s j (b, p)).0 in
      let t = open_match o s j b' q in
      let last = open_match o s i b' (truncate o s i j q) in
      let rest = chars_loop o s i rounds (j + 1) (b', print_char o s j t) in
      Keeps-trans p q (if is_too_wide o s j q then print_char o s i last else rest)
        (close_match-Keeps j b p)
        (if-Keeps (is_too_wide o s j q) q (print_char o s i last) rest
          (Keeps-trans q last (print_char o s i last)
            (Keeps-trans q (truncate o s i j q) last (truncate-Keeps i j q)
              (open_match-Keeps i b' (truncate o s i j q)))
            (print_char-Keeps i last))
          (Keeps-trans q (print_char o s j t) rest
            (Keeps-trans q t (print_char o s j t) (open_match-Keeps j b' q) (print_char-Keeps j t))
            (chars_loop-Keeps i rounds (j + 1) b' (print_char o s j t))))

  ackmate_loop-Keeps :
      (cur_match rounds : ℕ) (p : Printer) → Keeps p (ackmate_loop o s cur_match rounds p)
  unfolding ackmate_loop
  ackmate_loop-Keeps cur_match zero p = Keeps-refl p
  ackmate_loop-Keeps cur_match (suc rounds) p =
      let (a, b) = ackmate_loop-Keeps cur_match rounds _ in (a, b)

  vimgrep_loop-Keeps : (i rounds : ℕ) (p : Printer) → Keeps p (vimgrep_loop o s i rounds p)
  unfolding vimgrep_loop
  vimgrep_loop-Keeps i zero p = Keeps-refl p
  vimgrep_loop-Keeps i (suc rounds) p =
      let m = s.matches p.last_printed_match in
      let a = print_path o s.path (sep_of o) p in
      let b = print_line_number o p.line (sep_of o) a in
      let c = print_column_number m p.prev_line_offset (sep_of o) b in
      let q = print_line o s.buf i p.prev_line_offset c in
      let next = record q { last_printed_match = p.last_printed_match + 1 } in
      Keeps-trans p next (vimgrep_loop o s i rounds next)
        (Keeps-trans p a next (Written-Keeps p a (print_path-Written o s.path (sep_of o) p)) (
          Keeps-trans a b next (Written-Keeps a b (print_line_number-Written o p.line (sep_of o) a))
            (Keeps-trans b c next
              (Written-Keeps b c (print_column_number-Written o m p.prev_line_offset (sep_of o) b))
              (Written-Keeps c q (print_line-Written o s.buf i p.prev_line_offset c)))))
        (vimgrep_loop-Keeps i rounds next)

  print_for_ackmate-Keeps :
      (i cur_match : ℕ) (p : Printer) → Keeps p (print_for_ackmate o s i cur_match p)
  unfolding print_for_ackmate
  print_for_ackmate-Keeps i cur_match p =
      let a = print_line_number o p.line b';' p in
      let b = ackmate_loop o s cur_match (cur_match - p.last_printed_match) a in
      Keeps-trans p a (print_line o s.buf i p.prev_line_offset b)
        (Written-Keeps p a (print_line_number-Written o p.line b';' p))
        (Keeps-trans a b (print_line o s.buf i p.prev_line_offset b)
          (ackmate_loop-Keeps cur_match (cur_match - p.last_printed_match) a)
          (Written-Keeps b (print_line o s.buf i p.prev_line_offset b)
            (print_line-Written o s.buf i p.prev_line_offset b)))

  print_marked-Keeps : (i : ℕ) (p : Printer) → Keeps p (print_marked o s i p)
  unfolding print_marked
  print_marked-Keeps i p =
      let m = s.matches p.last_printed_match in
      let a = print_line_number o p.line b':' p in
      let column = print_column_number m p.prev_line_offset b':' a in
      let b = if o.column then column else a in
      let c = emit_if (p.printing_a_match && o.color) o.color_match b in
      let d = chars_loop o s i (i + 1 - p.prev_line_offset) p.prev_line_offset (false, c) in
      let last = emit_if (d.printing_a_match && o.color) color_reset d in
      Keeps-trans p a last (Written-Keeps p a (print_line_number-Written o p.line b':' p)) (
        Keeps-trans a b last
          (if-Keeps o.column a column a
            (Written-Keeps a column (print_column_number-Written o m p.prev_line_offset b':' a))
            (Keeps-refl a))
          (Keeps-trans b c last (emit_if-Keeps (p.printing_a_match && o.color) o.color_match b) (
            Keeps-trans c d last
              (chars_loop-Keeps i (i + 1 - p.prev_line_offset) p.prev_line_offset false c)
              (emit_if-Keeps (d.printing_a_match && o.color) color_reset d))))

  pub print_match_line-Keeps :
      (i cur_match : ℕ) (p : Printer) → Keeps p (print_match_line o s i cur_match p)
  unfolding print_match_line
  print_match_line-Keeps i cur_match p =
      let each = is_mode p.print_path PathPrint.each_line && not o.search_stream in
      let q = if each then print_path o s.path b':' p else p in
      let by_match = vimgrep_loop o s i (cur_match - q.last_printed_match) q in
      let marked = if o.vimgrep then by_match else print_marked o s i q in
      let last = if o.ackmate then print_for_ackmate o s i cur_match q else marked in
      Keeps-trans p q last (Written-Keeps p q (each_path-Written o each s.path b':' p)) (
        if-Keeps o.ackmate q (print_for_ackmate o s i cur_match q) marked
          (print_for_ackmate-Keeps i cur_match q)
          (if-Keeps o.vimgrep q by_match (print_marked o s i q)
            (vimgrep_loop-Keeps i (cur_match - q.last_printed_match) q) (print_marked-Keeps i q)))
