-- ===== src/Print/Written.antt =====
-- What the printing functions change: the output only, to which they add.
use mathlib.Core.List.{append-nil, append_assoc}
use the_silver_searcher.Base.{
  ℕ, ◌≡◌, refl, sym, ap, ◌∙◌, Bool, true, false, not, ◌&&◌, List, [], ◌++◌, if◌then◌else◌,
}
use the_silver_searcher.Search.{Match}
use the_silver_searcher.Print.{
  PrintOpts, Printer, Piece, PathPrint, is_mode, emit, print_path, path_pieces, print_line_number,
  print_column_number, print_line,
}

-- `q` is `p` with more written.
abbrev pub Written : Printer → Printer → Type 0
Written p q = (more : List Piece) × (q ≡ record p { out = p.out ++ more })

pub Written-refl : (p : Printer) → Written p p
Written-refl p = ([], ap (λ o. record p { out = o }) (sym (append-nil p.out)))

pub Written-trans : (p q r : Printer) → Written p q → Written q r → Written p r
Written-trans p q r (a, e) (b, e') = (
  a ++ b,
  e'
      ∙ ap (λ (t : Printer). record t { out = t.out ++ b }) e
      ∙ ap (λ o. record p { out = o }) (append_assoc p.out a b),
)

pub emit-Written : (pieces : List Piece) (p : Printer) → Written p (emit pieces p)
emit-Written pieces p = (pieces, refl)

pub if-Written :
    (b : Bool) (p q r : Printer) → Written p q → Written p r → Written p (if b then q else r)
if-Written true p q r h g = h
if-Written false p q r h g = g

module _ (o : PrintOpts) where
  pub print_path-Written :
      (path : List ℕ) (sep : ℕ) (p : Printer) → Written p (print_path o path sep p)
  unfolding print_path
  print_path-Written path sep p =
      if-Written (is_mode p.print_path PathPrint.nothing && not o.vimgrep) p p
        (emit (path_pieces o path sep) p) (Written-refl p) (emit-Written (path_pieces o path sep) p)

  pub print_line_number-Written :
      (line sep : ℕ) (p : Printer) → Written p (print_line_number o line sep p)
  unfolding print_line_number
  print_line_number-Written line sep p =
      if-Written o.print_line_numbers p _ p (emit-Written _ p) (Written-refl p)

  pub print_column_number-Written :
      (m : Match) (offset sep : ℕ) (p : Printer) → Written p (print_column_number m offset sep p)
  unfolding print_column_number
  print_column_number-Written m offset sep p = emit-Written _ p

  pub print_line-Written :
      (buf : List ℕ) (pos offset : ℕ) (p : Printer) → Written p (print_line o buf pos offset p)
  unfolding print_line
  print_line-Written buf pos offset p = emit-Written _ p

  -- The path before a line, if each line has it.
  pub each_path-Written :
      (b : Bool) (path : List ℕ) (sep : ℕ) (p : Printer)
      → Written p (if b then print_path o path sep p else p)
  each_path-Written b path sep p =
      if-Written b p (print_path o path sep p) p (print_path-Written path sep p) (Written-refl p)
