-- ===== src/Search/Literal.antt =====
-- The loop of `search_buf` for a literal query.
use the_silver_searcher.Base.{
  ℕ, zero, suc, ◌+◌, ◌-◌, Bool, true, false, not, ◌&&◌, ◌||◌, Option, none, some, List, at, drop,
  length, ltb, leb, ◌==◌, if◌then◌else◌, Run, done, out_of_fuel,
}
use the_silver_searcher.Search.{Found, push, is_full}

-- What the loop reads: options, tables and the buffer.
pub record Literal : Type 0 where
  pub query_len : ℕ
  pub word_regexp : Bool
  pub starts_wordchar : Bool
  pub ends_wordchar : Bool
  pub max_matches : ℕ
  pub find_skip : ℕ → ℕ
  pub buf : List ℕ
  pub buf_len : ℕ
  pub spare : ℕ

-- `init_wordchar_table` and `is_wordchar` of src/util.c.
unfoldable pub is_wordchar : ℕ → Bool
is_wordchar ch =
    (leb b'a' ch && leb ch b'z')
    || (leb b'A' ch && leb ch b'Z')
    || (leb b'0' ch && leb ch b'9')
    || ch == b'_'

abbrev pub differ : Bool → Bool → Bool
differ true b = not b
differ false b = b

-- Whether both ends of the match at `p` lie on a word boundary.
unfoldable pub on_boundary : Literal → ℕ → Bool
on_boundary l p =
    (p == 0 || differ (is_wordchar (at l.buf (p - 1))) l.starts_wordchar)
    && (p + l.query_len == l.buf_len
        || differ (is_wordchar (at l.buf (p + l.query_len))) l.ends_wordchar)

-- The rest of a round, once the query is found at `p`; `again` is the next round. A place that is not
-- on a word boundary is passed over by the first entry of the table of skips.
unfoldable pub on_match : Literal → (again : ℕ → Found → Run Found) → Found → (p : ℕ) → Run Found
on_match l again f p =
    let f' = push l.spare f (record { start = p; end = p + l.query_len }) in
    if l.word_regexp && not (on_boundary l p)
    then again (p + (l.find_skip 0 - l.query_len + 1)) f
    else if is_full l.max_matches (length f'.matches)
    then done f'
    else again (p + l.query_len) f'

-- The rest of a round, by what the search from `buf_offset` on gave.
unfoldable pub on_result :
    Literal
    → (again : ℕ → Found → Run Found) → (buf_offset : ℕ) → Found
    → Run (Option ℕ)
    → Run Found
on_result l again buf_offset f out_of_fuel = out_of_fuel
on_result l again buf_offset f (done none) = done f
on_result l again buf_offset f (done (some k)) = on_match l again f (buf_offset + k)

-- `strnstr text len` is the search from `match_ptr` on, which is `buf + buf_offset` in every round.
unfoldable pub literal_loop :
    (strnstr : List ℕ → ℕ → Run (Option ℕ)) → Literal → (fuel buf_offset : ℕ) → Found → Run Found
literal_loop strnstr l zero buf_offset f = out_of_fuel
literal_loop strnstr l (suc fuel) buf_offset f =
    let again = literal_loop strnstr l fuel in
    if ltb buf_offset l.buf_len
    then on_result l again buf_offset f (strnstr (drop buf_offset l.buf) (l.buf_len - buf_offset))
    else done f
