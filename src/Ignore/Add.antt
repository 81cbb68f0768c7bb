-- ===== src/Ignore/Add.antt =====
-- `add_ignore_pattern` and `load_ignore_patterns` of src/ignore.c.
pub mod Order
pub mod Keeps
use Prim.Native.Nat.{gt}
use the_silver_searcher.Base.{
  ℕ, zero, suc, ◌-◌, Bool, true, false, ◌&&◌, ◌||◌, not, Option, none, some, List, [], ◌∷◌, ◌++◌,
  ◌==◌, if◌then◌else◌, length, at, get_or, take, drop,
}
use the_silver_searcher.Base.Bytes.{strcmp, starts_with, has_any, has_char}
use the_silver_searcher.Base.Chars.{isspace}
use the_silver_searcher.Ignore.{Ignores}

-- `is_fnmatch` of src/util.c
unfoldable pub is_fnmatch : List ℕ → Bool
unfolding has_any
is_fnmatch filename = has_any (b'!' ∷ b'*' ∷ b'?' ∷ b'[' ∷ b']' ∷ []) filename

-- The length of a pattern less the white space at its end.
unfoldable pub trimmed_len : List ℕ → ℕ → ℕ
unfolding isspace
trimmed_len pattern zero = 0
trimmed_len pattern (suc n) = if isspace (at pattern n) then trimmed_len pattern n else suc n

-- The array that a pattern goes to, and how many bytes of its start are left out.
pub data Kind : Type 0 where
  extension slash_regex invert_regex regex slash_name name : Kind

unfoldable pub kind_of : List ℕ → Kind
unfolding is_fnmatch has_char
kind_of pattern =
    if is_fnmatch pattern
    then if at pattern 0 == b'*'
        && at pattern 1 == b'.'
        && has_char b'.' (drop 2 pattern)
        && not (is_fnmatch (drop 2 pattern))
      then extension
      else if at pattern 0 == b'/'
      then slash_regex
      else if at pattern 0 == b'!'
      then invert_regex
      else regex
    else if at pattern 0 == b'/'
    then slash_name
    else name

unfoldable pub skipped : Kind → ℕ
skipped extension = 2
skipped slash_regex = 1
skipped invert_regex = 1
skipped regex = 0
skipped slash_name = 1
skipped name = 0

-- The loop that moves the entries behind the new one up: the index at which it stops.
unfoldable pub slot : (pattern : List ℕ) (patterns : List (List ℕ)) (i : ℕ) → ℕ
unfolding strcmp
slot pattern patterns zero = 0
slot pattern patterns (suc i) = elim (strcmp pattern (get_or patterns i [])) [
  | gt ↦ suc i
  | _ ↦ slot pattern patterns i
]

-- The pattern is compared whole, and stored without the white space at its end.
unfoldable pub insert_pattern : (pattern : List ℕ) (pattern_len : ℕ) → List (List ℕ) → List (List ℕ)
unfolding slot
insert_pattern pattern pattern_len patterns =
    let i = slot pattern patterns (length patterns) in
    take i patterns ++ take pattern_len pattern ∷ drop i patterns

unfoldable pub insert_into : Kind → (pattern : List ℕ) (pattern_len : ℕ) → Ignores → Ignores
unfolding insert_pattern
insert_into extension pattern n ig = record ig {
  extensions = insert_pattern pattern n ig.extensions;
}
insert_into slash_regex pattern n ig = record ig {
  slash_regexes = insert_pattern pattern n ig.slash_regexes;
}
insert_into invert_regex pattern n ig = record ig {
  invert_regexes = insert_pattern pattern n ig.invert_regexes;
}
insert_into regex pattern n ig = record ig { regexes = insert_pattern pattern n ig.regexes }
insert_into slash_name pattern n ig = record ig {
  slash_names = insert_pattern pattern n ig.slash_names;
}
insert_into name pattern n ig = record ig { names = insert_pattern pattern n ig.names }

-- `./` at the start of a pattern becomes `/`.
unfoldable pub strip_dot : List ℕ → List ℕ
unfolding starts_with
strip_dot pattern = if starts_with (b'.' ∷ b'/' ∷ []) pattern then drop 1 pattern else pattern

unfoldable pub add_ignore_pattern : Ignores → List ℕ → Ignores
unfolding strip_dot trimmed_len kind_of insert_into skipped
add_ignore_pattern ig pattern =
    let p = strip_dot pattern in
    let pattern_len = trimmed_len p (length p) in
    let kind = kind_of p in
    if pattern_len == 0
    then ig
    else insert_into kind (drop (skipped kind) p) (pattern_len - skipped kind) ig

-- The line that `getline` gives, with its `\n`, as `load_ignore_patterns` treats it.
unfoldable pub load_line : Ignores → List ℕ → Ignores
unfolding add_ignore_pattern
load_line ig line =
    if at line 0 == b'\n' || at line 0 == b'#'
    then ig
    else if at line (length line - 1) == b'\n'
    then add_ignore_pattern ig (take (length line - 1) line)
    else add_ignore_pattern ig line

unfoldable pub load_lines : Ignores → List (List ℕ) → Ignores
unfolding load_line
load_lines ig [] = ig
load_lines ig (line ∷ lines) = load_lines (load_line ig line) lines

-- The lines of the file, or `none` where `fopen` fails.
unfoldable pub load_ignore_patterns : Ignores → Option (List (List ℕ)) → Ignores
unfolding load_lines
load_ignore_patterns ig none = ig
load_ignore_patterns ig (some lines) = load_lines ig lines
