-- ===== src/Matcher/HashTable.antt =====
-- `generate_hash` of src/util.c: the table of the query's pairs of bytes. `size` is H_SIZE, the number of
-- cells, and an array is a function from its indices.
pub mod Probe
pub mod Filled
pub mod Entries
pub mod Ends
use the_silver_searcher.Base.{
  ℕ, zero, suc, ◌+◌, ◌-◌, ◌*◌, ◌%◌, ◌/◌, Bool, true, false, List, at, ◌==◌, if◌then◌else◌, update,
  Run, then_run, done, out_of_fuel,
}

-- `(h + 1) % H_SIZE`
abbrev pub next_cell : (size h : ℕ) → ℕ
next_cell size h = (h + 1) % size

-- The loop to the next free cell, which goes round for ever in a full table.
unfoldable pub free_cell : (size : ℕ) (table : ℕ → ℕ) (fuel h : ℕ) → Run ℕ
free_cell size table zero h = out_of_fuel
free_cell size table (suc fuel) h =
    let rest = free_cell size table fuel (next_cell size h) in if table h == 0 then done h else rest

-- An entry is written to the next free cell, as a byte.
unfoldable pub put_entry : (size : ℕ) (table : ℕ → ℕ) (h entry : ℕ) → Run (ℕ → ℕ)
put_entry size table h entry =
    then_run (free_cell size table size h) (λ cell. done (update table cell (entry % 256)))

-- A byte of the word, capitalised by `-= 'a' - 'A'` if the bit of `caps_set` is 1.
abbrev pub capitalize : (bit c : ℕ) → ℕ
capitalize bit c = if bit == 0 then c else (c + 256 - 32) % 256

-- `word.as_word % H_SIZE` for the two bytes of the query at `i`, the low byte first.
unfoldable pub hash_of : (size : ℕ) (find : List ℕ) (i caps_set : ℕ) → ℕ
hash_of size find i caps_set =
    (capitalize (caps_set % 2) (at find i) + 256 * capitalize (caps_set / 2) (at find (i + 1)))
    % size

-- The loop over `caps_set`, left behind the first round if case matters.
unfoldable pub caps_loop :
    (size : ℕ) (find : List ℕ) (case_sensitive : Bool) (i : ℕ) (rounds caps_set : ℕ) (table : ℕ → ℕ)
    → Run (ℕ → ℕ)
caps_loop size find case_sensitive i zero caps_set table = done table
caps_loop size find case_sensitive i (suc rounds) caps_set table =
    let again = caps_loop size find case_sensitive i rounds (caps_set + 1) in
    then_run (put_entry size table (hash_of size find i caps_set) (i + 1))
      (λ t. elim case_sensitive [ true ↦ done t | false ↦ again t ])

-- The loop over `i`, downwards; `i1` is `i + 1`.
unfoldable pub hash_loop :
    (size : ℕ) (find : List ℕ) (case_sensitive : Bool) (i1 : ℕ) (table : ℕ → ℕ) → Run (ℕ → ℕ)
hash_loop size find case_sensitive zero table = done table
hash_loop size find case_sensitive (suc i) table =
    then_run (caps_loop size find case_sensitive i 4 0 table) (hash_loop size find case_sensitive i)

unfoldable pub generate_hash : (size : ℕ) (find : List ℕ) (f_len : ℕ) → Bool → Run (ℕ → ℕ)
generate_hash size find f_len case_sensitive =
    hash_loop size find case_sensitive (f_len - 1) (λ h. 0)
