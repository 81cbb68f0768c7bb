-- ===== src/Mode.antt =====
-- How a search is chosen: the query in `parse_options` of src/options.c, `is_regex` and `is_lowercase` of
-- src/util.c, and the start of src/main.c.
pub mod Ready
mod Examples
use the_silver_searcher.Base.{
  ℕ, Bool, true, false, ◌&&◌, ◌||◌, not, Option, none, some, List, [], ◌∷◌, length, ◌==◌,
  if◌then◌else◌,
}
use the_silver_searcher.Base.Chars.{isascii, isupper, tolower}
use the_silver_searcher.Base.Bytes.{has_any}

-- `enum case_behavior`, as far as a search knows it.
pub data Casing : Type 0 where
  default sensitive insensitive smart : Casing

abbrev pub regex_chars : List ℕ
regex_chars =
    b'$' ∷ b'(' ∷ b')' ∷ b'*' ∷ b'+' ∷ b'.' ∷ b'?' ∷ b'[' ∷ b'\\' ∷ b'^' ∷ b'{' ∷ b'|' ∷ []

unfoldable pub is_regex : List ℕ → Bool
is_regex query = has_any regex_chars query

unfoldable pub is_lowercase : List ℕ → Bool
is_lowercase [] = true
is_lowercase (c ∷ s) = if not (isascii c) || isupper c then false else is_lowercase s

-- What the options leave behind: `argument` is the first one that is no option.
pub record Args : Type 0 where
  pub needs_query : Bool
  pub accepts_query : Bool
  pub argument : Option (List ℕ)
  pub literal : Bool
  pub casing : Casing

pub record Prepared : Type 0 where
  pub query : List ℕ
  pub literal : Bool
  pub casing : Casing

abbrev pub default_query : List ℕ
default_query = b'.' ∷ []

-- `none` is the end of the program without a query. A query that is needed is accepted, too, in every call.
unfoldable pub query_of : Args → Option (List ℕ)
query_of a = elim a.argument [
  | none ↦ if a.needs_query then none else some default_query
  | some q ↦
      if a.accepts_query
      then if not a.needs_query && length q == 0 then some default_query else some q
      else if a.needs_query
      then none
      else some default_query
]

-- CASE_DEFAULT becomes CASE_SMART, and that is decided by the query.
unfoldable pub casing_of : Casing → (query : List ℕ) → Casing
casing_of sensitive query = sensitive
casing_of insensitive query = insensitive
casing_of default query = if is_lowercase query then insensitive else sensitive
casing_of smart query = if is_lowercase query then insensitive else sensitive

abbrev pub is_insensitive : Casing → Bool
is_insensitive insensitive = true
is_insensitive _ = false

-- The loop that puts the query in lower case.
unfoldable pub fold_query : List ℕ → List ℕ
fold_query [] = []
fold_query (c ∷ s) = tolower c ∷ fold_query s

-- The query in lower case, if it is literal and case is ignored.
unfoldable pub ready : (literal : Bool) → Casing → (query : List ℕ) → Prepared
ready literal casing query = record {
  query = if literal && is_insensitive casing then fold_query query else query;
  literal = literal;
  casing = casing;
}

unfoldable pub prepare_query : Args → (query : List ℕ) → Option Prepared
prepare_query a query =
    if length query == 0
    then none
    else some (ready (a.literal || not (is_regex query)) (casing_of a.casing query) query)

unfoldable pub prepare : Args → Option Prepared
prepare a = elim (query_of a) [ none ↦ none | some query ↦ prepare_query a query ]
