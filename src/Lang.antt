-- ===== src/Lang.antt =====
-- src/lang.c: the extensions of file types, and the regular expression that selects their files.
pub mod Build
pub mod Table
mod Examples
use the_silver_searcher.Base.{
  ℕ, zero, suc, ◌+◌, ◌*◌, Bool, true, false, List, [], ◌∷◌, ◌++◌, length, ltb, ◌==◌, if◌then◌else◌,
}

-- The text in `regex`, its `regex_capacity`, and `subsequent`.
pub record Regex : Type 0 where
  pub text : List ℕ
  pub capacity : ℕ
  pub subsequent : Bool

abbrev pub bit : Bool → ℕ
bit true = 1
bit false = 0

-- The loop that doubles the capacity until `need` bytes fit.
unfoldable pub grow : (fuel need capacity : ℕ) → ℕ
grow zero need capacity = capacity
grow (suc fuel) need capacity =
    let more = grow fuel need (capacity * 2) in if ltb capacity need then more else capacity

-- One extension is written behind the others.
unfoldable pub add_extension : Regex → List ℕ → Regex
add_extension r extension =
    let need = length r.text + length extension + 3 + bit r.subsequent in
    record {
      text = r.text ++ (if r.subsequent then b'|' ∷ extension else extension);
      capacity = grow need need r.capacity;
      subsequent = true;
    }

unfoldable pub add_extensions : Regex → List (List ℕ) → Regex
add_extensions r [] = r
add_extensions r (e ∷ es) = add_extensions (add_extension r e) es

-- The text is closed by `)`, `$` and a NUL, which the capacity has kept room for.
unfoldable pub make_lang_regex : List (List ℕ) → Regex
make_lang_regex exts =
    let r =
      add_extensions
        (record { text = b'\\' ∷ b'.' ∷ b'(' ∷ []; capacity = 100; subsequent = false }) exts in
    record r { text = r.text ++ b')' ∷ b'$' ∷ [] }

-- The extensions of one file type, while there is room; at most `capacity` are kept in all.
unfoldable pub combine_one : (capacity : ℕ) (exts new : List (List ℕ)) → List (List ℕ)
combine_one capacity exts [] = exts
combine_one capacity exts (e ∷ es) =
    if length exts == capacity then exts else combine_one capacity (exts ++ e ∷ []) es

-- `langs` gives the extensions of each chosen file type. The rows hold strings of fewer than
-- `SINGLE_EXT_LEN` bytes.
unfoldable pub combine_types :
    (capacity : ℕ) (exts : List (List ℕ)) → List (List (List ℕ)) → List (List ℕ)
combine_types capacity exts [] = exts
combine_types capacity exts (l ∷ langs) = combine_types capacity (combine_one capacity exts l) langs

unfoldable pub combine_file_extensions : List (List (List ℕ)) → List (List ℕ)
combine_file_extensions langs = combine_types 100 [] langs
