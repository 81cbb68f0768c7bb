-- ===== src/Ignore/Filter/Names.antt =====
-- Names in the ignore files are found, at any node of the chain.
use the_silver_searcher.Base.{
  ℕ, zero, suc, ◌<◌, ◌≡◌, refl, true, false, not, ◌&&◌, List, [], ◌∷◌, length, get_elem?, Option,
  none, some, arith,
}
use the_silver_searcher.Base.Bytes.{starts_with}
use the_silver_searcher.Names.{binary_search}
use the_silver_searcher.Names.Sorted.{name_at, IsSorted}
use the_silver_searcher.Names.Find.{Locates, binary_search-Locates}
use the_silver_searcher.Ignore.{Ignores, Chain}
use the_silver_searcher.Ignore.Filter.{
  Dirent, FilterOpts, Outside, holds, found, path_ignore_search, extension_of, ignored_by, ignored,
  filename_filter,
}

module _ (world : Outside) where
  found_lem :
      (needle : List ℕ) (names : List (List ℕ))
      → IsSorted names
      → (i : ℕ) → i < length names
      → name_at names i ≡ needle
      → found world needle names ≡ true
  unfolding found
  found_lem needle names sorted i h e =
      go (binary_search needle names 0 (length names)) (binary_search-Locates needle names sorted)
    where
      go : (r : Option ℕ) → Locates needle names 0 (length names) r → holds (λ _. true) r ≡ true
      go none missing = absurd (missing i (omega arith) h e)
      go (some m) _ = refl

  path_ignore_search-names :
      (ig : Ignores) (path filename : List ℕ)
      → found world filename ig.names ≡ true
      → path_ignore_search world ig path filename ≡ true
  unfolding path_ignore_search
  path_ignore_search-names ig path filename h = rw h

  ignored-of_node :
      (chain : Chain) (k : ℕ) (ig : Ignores) (path path_start filename : List ℕ)
      (extension : Option (List ℕ)) (d : Dirent)
      → get_elem? chain k ≡ some ig
      → ignored_by world ig path path_start filename extension d ≡ true
      → ignored world chain path path_start filename extension d ≡ true
  unfolding ignored
  ignored-of_node [] k ig path path_start filename extension d e h = cc
  ignored-of_node (n ∷ chain) zero ig path path_start filename extension d e h = ground arith
  ignored-of_node (n ∷ chain) (suc k) ig path path_start filename extension d e h =
      ground (arith, ignored-of_node chain k ig path path_start filename extension d e h)

  -- An entry whose name stands in the sorted names of some node of the chain is left out, unless the
  -- options ask for all files.
  pub filename_filter-names :
      (opts : FilterOpts) (chain : Chain) (k : ℕ) (ig : Ignores) (path path_start : List ℕ)
      (d : Dirent) (i : ℕ)
      → get_elem? chain k ≡ some ig
      → IsSorted ig.names
      → i < length ig.names
      → name_at ig.names i ≡ d.d_name
      → starts_with (b'.' ∷ b'/' ∷ []) d.d_name ≡ false
      → (opts.search_all_files && not opts.path_to_ignore) ≡ false
      → filename_filter world opts chain path path_start d ≡ false
  unfolding filename_filter ignored_by
  filename_filter-names opts chain k ig path path_start d i node sorted h e plain all =
      let hit = found_lem d.d_name ig.names sorted i h e in
      let here = path_ignore_search-names ig path_start d.d_name hit in
      ground (
        arith,
        ignored-of_node chain k ig path path_start d.d_name (extension_of world d.d_name) d node,
        here,
      )
