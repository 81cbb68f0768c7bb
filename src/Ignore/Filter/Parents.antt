-- ===== src/Ignore/Filter/Parents.antt =====
-- `init_ignore` may pass over an empty parent: the filter gives the same answer.
use the_silver_searcher.Base.{
  ℕ, ◌≡◌, refl, Bool, true, false, ◌&&◌, List, [], ◌∷◌, length, Option, none, some, arith,
  Bool-cases, inl, inr, if◌then◌else◌,
}
use the_silver_searcher.Names.{binary_search}
use the_silver_searcher.Ignore.{Ignores, Chain, is_empty, parent_of}
use the_silver_searcher.Ignore.Filter.{
  Dirent, Outside, found, any_of, slash_ignored, path_ignore_search, ackmate_dir_match, ignored_by,
  ignored,
}

nil_of_length : (xs : List (List ℕ)) → length xs ≡ 0 → xs ≡ []
nil_of_length [] h = refl
nil_of_length (x ∷ xs) h = absurd (omega arith)

and_false : (b : Bool) → (b && false) ≡ false
and_false true = refl
and_false false = refl

if_same : (b c : Bool) → (if b then c else c) ≡ c
if_same true c = refl
if_same false c = refl

-- The arrays that `is_empty` counts have no entries.
record Bare (ig : Ignores) : Type 0 where
  extensions : ig.extensions ≡ []
  names : ig.names ≡ []
  slash_names : ig.slash_names ≡ []
  regexes : ig.regexes ≡ []
  slash_regexes : ig.slash_regexes ≡ []

is_empty-Bare : (ig : Ignores) → is_empty ig ≡ true → Bare ig
unfolding is_empty
is_empty-Bare ig h = record {
  extensions = nil_of_length ig.extensions (ground arith);
  names = nil_of_length ig.names (ground arith);
  slash_names = nil_of_length ig.slash_names (ground arith);
  regexes = nil_of_length ig.regexes (ground arith);
  slash_regexes = nil_of_length ig.slash_regexes (ground arith);
}

module _ (world : Outside) (unfiltered : world.dir_filter ≡ none) where
  found-nil : (needle : List ℕ) → found world needle [] ≡ false
  unfolding found binary_search
  found-nil needle = refl

  slash_ignored-Bare : (ig : Ignores) (s : List ℕ) → Bare ig → slash_ignored world ig s ≡ false
  unfolding slash_ignored any_of
  slash_ignored-Bare ig s b = rw (b.names, b.slash_names, b.slash_regexes, found-nil s)

  ackmate_dir_match-none : (temp : List ℕ) → ackmate_dir_match world temp ≡ false
  unfolding ackmate_dir_match
  ackmate_dir_match-none temp = rw unfiltered

  -- A node without patterns, but for those with a `!`, leaves nothing out.
  path_ignore_search-Bare :
      (ig : Ignores) (path filename : List ℕ)
      → Bare ig
      → path_ignore_search world ig path filename ≡ false
  unfolding path_ignore_search any_of
  path_ignore_search-Bare ig path filename b = simp (
    b.names,
    b.regexes,
    found-nil,
    slash_ignored-Bare ig _ b,
    ackmate_dir_match-none,
    and_false,
    if_same,
  )

  ignored_by-Bare :
      (ig : Ignores) (path path_start filename : List ℕ) (extension : Option (List ℕ)) (d : Dirent)
      → Bare ig
      → ignored_by world ig path path_start filename extension d ≡ false
  unfolding ignored_by
  ignored_by-Bare ig path path_start filename none d b =
      simp (path_ignore_search-Bare ig _ _ b, and_false)
  ignored_by-Bare ig path path_start filename (some e) d b =
      simp (b.extensions, found-nil, path_ignore_search-Bare ig _ _ b, and_false)

  -- Where AckMate's filter is off, a new node that passes over an empty parent leaves out exactly the
  -- entries that it would leave out with the parent in its chain.
  pub parent_of-ignored :
      (chain : Chain) (path path_start filename : List ℕ) (extension : Option (List ℕ)) (d : Dirent)
      → ignored world (parent_of chain) path path_start filename extension d
        ≡ ignored world chain path path_start filename extension d
  unfolding parent_of ignored
  parent_of-ignored [] path path_start filename extension d = refl
  parent_of-ignored (p ∷ []) path path_start filename extension d = refl
  parent_of-ignored (p ∷ q ∷ rest) path path_start filename extension d =
      elim (Bool-cases (is_empty p)) [
        | inl e ↦ rw (e, ignored_by-Bare p path path_start filename extension d (is_empty-Bare p e))
        | inr full ↦ rw full
      ]
