-- ===== src/Search/Whole.antt =====
-- The literal search of a buffer with the tables that `main` makes.
use mathlib.Core.Path.{subst}
use mathlib.Core.Bool.{not-not}
use the_silver_searcher.Base.{
  ℕ, ◌+◌, ◌-◌, ◌*◌, ◌≤◌, ◌<◌, Option, Bool, true, false, not, ◌&&◌, ◌||◌, List, [], at, length, ltb,
  leb, if◌then◌else◌, Run, then_run, Returns, arith, Bool-cases, inl, inr,
}
use the_silver_searcher.Matcher.Occurrence.{IsFolded, IsFirst}
use the_silver_searcher.Matcher.Tables.{generate_alpha_skip, generate_find_skip}
use the_silver_searcher.Matcher.FindSkip.{generate_find_skip-IsSkip}
use the_silver_searcher.Matcher.BoyerMoore.{boyer_moore_strnstr}
use the_silver_searcher.Matcher.BoyerMoore.First.{boyer_moore_strnstr-IsFirst}
use the_silver_searcher.Matcher.HashTable.{generate_hash}
use the_silver_searcher.Matcher.HashTable.Ends.{generate_hash-Returns}
use the_silver_searcher.Matcher.Hash.{hash_strnstr}
use the_silver_searcher.Matcher.Hash.First.{hash_strnstr-IsFirst}
use the_silver_searcher.Search.{Found}
use the_silver_searcher.Search.Literal.{Literal, is_wordchar, literal_loop}
use the_silver_searcher.Search.Scan.{Scan}
use the_silver_searcher.Search.Promise.{Fits, literal_loop-Finished}

-- The options that a literal search reads. `fresh` is the memory that a table is made in; `is_x86` says
-- whether the program is built for i386 or x86-64.
pub record Query : Type 0 where
  pub query : List ℕ
  pub case_insensitive : Bool
  pub word_regexp : Bool
  pub max_matches_per_file : ℕ
  pub invert_match : Bool
  pub fresh : ℕ → ℕ
  pub is_x86 : Bool

-- What `main` and the head of `search_buf` set up for the loop.
abbrev pub setup : Query → (buf : List ℕ) → Literal
setup q buf = record {
  query_len = length q.query;
  word_regexp = q.word_regexp;
  starts_wordchar = is_wordchar (at q.query 0);
  ends_wordchar = is_wordchar (at q.query (length q.query - 1));
  max_matches = q.max_matches_per_file;
  find_skip = generate_find_skip q.query (length q.query) (not q.case_insensitive) q.fresh;
  buf = buf;
  buf_len = length buf;
  spare = if q.invert_match then 1 else 0;
}

-- The array before the search.
abbrev pub no_matches : Query → Found
no_matches q = record { matches = []; size = if q.invert_match then 100 else 0 }

-- H_SIZE
abbrev pub h_size : ℕ
h_size = 64 * 1024

-- Whether the search goes by the table of pairs.
abbrev pub by_hash : Query → Bool
by_hash q = q.is_x86 && not (ltb (length q.query) (2 * 2 - 1) || leb 255 (length q.query))

abbrev pub strnstr_of : Query → (h_table : ℕ → ℕ) → List ℕ → ℕ → Run (Option ℕ)
strnstr_of q h_table s s_len =
    if by_hash q
    then hash_strnstr h_size s q.query s_len (length q.query) h_table (not q.case_insensitive)
    else boyer_moore_strnstr s q.query s_len (length q.query)
        (generate_alpha_skip q.query (length q.query) (not q.case_insensitive))
        (generate_find_skip q.query (length q.query) (not q.case_insensitive) q.fresh)
        q.case_insensitive

-- `main` makes the table of pairs for every query.
unfoldable pub literal_search : Query → (buf : List ℕ) → Run Found
literal_search q buf =
    then_run (generate_hash h_size q.query (length q.query) (not q.case_insensitive)) (λ h_table.
      literal_loop (strnstr_of q h_table) (setup q buf) (length buf + 1) 0 (no_matches q))

h_size-enough : (n : ℕ) → n ≤ 16384 → 4 * (n - 1) < h_size
h_size-enough n le = omega arith

-- The table is made, and the search by it, or by the tables of Boyer and Moore, finds the first occurrence.
strnstr_of-IsFirst :
    (q : Query)
    → 0 < length q.query
    → length q.query ≤ 16384
    → IsFolded q.case_insensitive q.query (length q.query)
    → Returns (generate_hash h_size q.query (length q.query) (not q.case_insensitive)) (λ h_table.
      (s : List ℕ) (s_len : ℕ)
      → Returns
          (strnstr_of q h_table s s_len)
          (IsFirst q.case_insensitive q.query (length q.query) s s_len))
strnstr_of-IsFirst q pos short folded = elim (Bool-cases (by_hash q)) [
  | inl hash ↦
      let (table, e, first) =
        hash_strnstr-IsFirst h_size q.query (length q.query) (not q.case_insensitive)
          (ground (arith, hash)) (ground (arith, hash)) (h_size-enough (length q.query) short) in
      (
        table,
        e,
        λ s s_len. rw hash (
            subst
              (λ (ci : Bool).
                Returns
                  (hash_strnstr h_size s q.query s_len (length q.query) table
                    (not q.case_insensitive))
                  (IsFirst ci q.query (length q.query) s s_len))
              (not-not q.case_insensitive) (first s s_len)),
      )
  | inr other ↦
      let (table, e, made) =
        generate_hash-Returns h_size q.query (not q.case_insensitive) (omega arith) (length q.query)
          (omega (arith, h_size-enough (length q.query) short)) in
      (
        table,
        e,
        λ s s_len. rw other (
            boyer_moore_strnstr-IsFirst s q.query s_len (length q.query) q.case_insensitive q.fresh
              pos folded),
      )
]

-- The search of a buffer for a query of 1 to 16384 bytes, in lower case if case is ignored, returns: the
-- matches that it gives are the occurrences from left to right, each the first one from the end of the last
-- match on, up to the limit on their number, with those left out that do not lie on word boundaries where
-- that is asked for; and the array has room for them and for the spare one that an inversion needs.
pub literal_search-Scan :
    (q : Query) (buf : List ℕ)
    → 0 < length q.query
    → length q.query ≤ 16384
    → IsFolded q.case_insensitive q.query (length q.query)
    → Returns (literal_search q buf) (λ f.
      Scan q.case_insensitive q.query (setup q buf) 0 0 f.matches × Fits (setup q buf).spare f)
unfolding literal_search
literal_search-Scan q buf pos short folded =
    let n = length q.query in
    let ci = q.case_insensitive in
    let (h_table, made, first) = strnstr_of-IsFirst q pos short folded in
    let (f, e, fin) =
      literal_loop-Finished ci q.query (setup q buf) (strnstr_of q h_table) first
        (generate_find_skip-IsSkip ci q.query n folded q.fresh 0 pos) pos (length buf + 1) 0
        (no_matches q) (omega arith) (start q.invert_match) in
    rw made (f, e, (rw fin.behind fin.scan, fin.fits))
  where
    start : (b : Bool) → 0 + (if b then 1 else 0) ≤ (if b then 100 else 0)
    start true = omega arith
    start false = omega arith
