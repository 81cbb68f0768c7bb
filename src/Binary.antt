-- ===== src/Binary.antt =====
-- `is_binary` of src/util.c: is a buffer text, by its first 512 bytes?
pub mod Text
pub mod Valid
pub mod Ends
mod Examples
use the_silver_searcher.Base.{
  ℕ, zero, suc, ◌+◌, ◌*◌, ◌/◌, Bool, true, false, not, ◌&&◌, ◌||◌, List, at, ltb, leb, ◌==◌,
  if◌then◌else◌, Run, done, out_of_fuel,
}

-- What one round finds: a NUL, a byte or a sequence that may stand in text, or a suspicious byte. `at_byte`
-- is the value of `i` at the end of the round.
pub data Verdict : Type 0 where
  nul : Verdict
  fine : (at_byte : ℕ) → Verdict
  suspicious : (at_byte : ℕ) → Verdict

-- A byte that continues a sequence of UTF-8.
abbrev pub continues : ℕ → Bool
continues c = ltb 127 c && ltb c 192

abbrev pub odd_byte : ℕ → Bool
odd_byte c = (ltb c 7 || ltb 14 c) && (ltb c 32 || ltb 127 c)

unfoldable pub look : (buf : List ℕ) (total_bytes i : ℕ) → Verdict
look buf total_bytes i =
    let c = at buf i in
    if c == 0
    then nul
    else if not (odd_byte c)
    then fine i
    else if ltb 193 c && ltb c 224 && ltb (i + 1) total_bytes
    then if continues (at buf (i + 1)) then fine (i + 1) else suspicious (i + 1)
    else if ltb 223 c && ltb c 240 && ltb (i + 2) total_bytes
    then if continues (at buf (i + 1)) && continues (at buf (i + 2))
      then fine (i + 2)
      else suspicious (i + 1)
    else suspicious i

abbrev pub too_many : (total_bytes suspicious_bytes : ℕ) → Bool
too_many total_bytes suspicious_bytes = ltb 10 (suspicious_bytes * 100 / total_bytes)

-- The rest of a round; `again` is the next one.
unfoldable pub judge :
    (total_bytes : ℕ) (again : ℕ → ℕ → Run Bool) (suspicious_bytes : ℕ) → Verdict → Run Bool
judge total_bytes again suspicious_bytes nul = done true
judge total_bytes again suspicious_bytes (fine i) = again (i + 1) suspicious_bytes
judge total_bytes again suspicious_bytes (suspicious i) =
    if leb 32 i && too_many total_bytes (suspicious_bytes + 1)
    then done true
    else again (i + 1) (suspicious_bytes + 1)

unfoldable pub binary_loop : (buf : List ℕ) (total_bytes fuel i suspicious_bytes : ℕ) → Run Bool
binary_loop buf total_bytes zero i suspicious_bytes = out_of_fuel
binary_loop buf total_bytes (suc fuel) i suspicious_bytes =
    let again = binary_loop buf total_bytes fuel in
    if ltb i total_bytes
    then judge total_bytes again suspicious_bytes (look buf total_bytes i)
    else done (too_many total_bytes suspicious_bytes)

abbrev pub has_bom : (buf : List ℕ) (buf_len : ℕ) → Bool
has_bom buf buf_len = leb 3 buf_len && at buf 0 == 0xEF && at buf 1 == 0xBB && at buf 2 == 0xBF

abbrev pub is_pdf : (buf : List ℕ) (buf_len : ℕ) → Bool
is_pdf buf buf_len =
    leb 5 buf_len
    && at buf 0 == b'%'
    && at buf 1 == b'P'
    && at buf 2 == b'D'
    && at buf 3 == b'F'
    && at buf 4 == b'-'

abbrev pub total_of : ℕ → ℕ
total_of buf_len = if ltb 512 buf_len then 512 else buf_len

unfoldable pub is_binary : (buf : List ℕ) (buf_len : ℕ) → Run Bool
is_binary buf buf_len =
    if buf_len == 0
    then done false
    else if has_bom buf buf_len
    then done false
    else if is_pdf buf buf_len
    then done true
    else binary_loop buf (total_of buf_len) (total_of buf_len + 1) 0 0
