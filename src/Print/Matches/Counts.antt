-- ===== src/Print/Matches/Counts.antt =====
-- The line number and the start of the line that `print_file_matches` goes by are those of the byte it is at.
use the_silver_searcher.Base.{
  ℕ, zero, suc, ◌+◌, ◌<◌, ◌≡◌, true, false, ◌&&◌, List, at, ◌==◌, if◌then◌else◌,
}
use the_silver_searcher.Print.{PrintOpts, Printer}
use the_silver_searcher.Print.Line.{Source}
use the_silver_searcher.Print.Line.Keeps.{Keeps}
use the_silver_searcher.Print.Matches.{is_line_end, goes_on, next_state, print_header}

-- The ends of lines before byte `i`, and the byte behind the last one.
pub newlines : (buf : List ℕ) (i : ℕ) → ℕ
newlines buf zero = 0
newlines buf (suc i) = newlines buf i + (if at buf i == b'\n' then 1 else 0)

pub line_start : (buf : List ℕ) (i : ℕ) → ℕ
line_start buf zero = 0
line_start buf (suc i) = if at buf i == b'\n' then suc i else line_start buf i

module _ (o : PrintOpts) (s : Source) where
  -- The states at the head of a round, from the start of a file or of a line of a stream on.
  pub data Reached (p : Printer) : (i cur_match : ℕ) → Printer → Type 0 where
    start : Reached p 0 0 (print_header o s p)
    next :
        (i cur_match : ℕ) (q : Printer)
        → Reached p i cur_match q
        → i < s.buf_len
        → goes_on o s cur_match q ≡ true
        → (is_line_end o s i && o.search_stream) ≡ false
        → Reached p (suc i) (next_state o s i cur_match q).0 (next_state o s i cur_match q).1

  abbrev Counted : (line i : ℕ) → Printer → Type 0
  Counted line i p = (p.line ≡ line + newlines s.buf i) × (p.prev_line_offset ≡ line_start s.buf i)
