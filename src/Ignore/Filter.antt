-- ===== src/Ignore/Filter.antt =====
-- `path_ignore_search` and `filename_filter` of src/ignore.c, and the tests of a directory entry of
-- src/util.c. What other code answers is a parameter: `ag_fnmatch`, the filter of AckMate, `stat`.
pub mod Names
pub mod Parents
use Prim.Native.Nat.{eq}
use the_silver_searcher.Base.{
  ℕ, zero, suc, ◌+◌, ◌-◌, Bool, true, false, ◌&&◌, ◌||◌, not, Option, none, some, List, [], ◌∷◌,
  ◌++◌, ◌==◌, if◌then◌else◌, length, at, drop,
}
use the_silver_searcher.Base.Bytes.{strcmp, starts_with, has_char, after_char, strstr}
use the_silver_searcher.Names.{binary_search}
use the_silver_searcher.Ignore.{Ignores, Chain}

-- `d_type`, and the file type bits of `st_mode`.
pub data FileType : Type 0 where
  unknown regular directory symlink fifo socket other : FileType

pub record Dirent : Type 0 where
  pub d_name : List ℕ
  pub d_type : FileType

-- The options that the filter reads.
pub record FilterOpts : Type 0 where
  pub search_hidden_files : Bool
  pub follow_symlinks : Bool
  pub search_all_files : Bool
  pub path_to_ignore : Bool

-- What the code under src/ does not decide. `stat` and `lstat` give `none` where they fail;
-- `fnmatch pattern string` is `ag_fnmatch(pattern, string, FNM_PATHNAME) == 0`; `dir_filter temp` is the
-- truth of `tre_regnexec` on AckMate's filter, where there is one.
pub record Outside : Type 0 where
  pub stat : List ℕ → Option FileType
  pub lstat : List ℕ → Option FileType
  pub fnmatch : List ℕ → List ℕ → Bool
  pub dir_filter : Option (List ℕ → Bool)

abbrev pub is_type : FileType → FileType → Bool
is_type unknown unknown = true
is_type regular regular = true
is_type directory directory = true
is_type symlink symlink = true
is_type fifo fifo = true
is_type socket socket = true
is_type other other = true
is_type _ _ = false

abbrev pub full_path : List ℕ → Dirent → List ℕ
full_path path d = path ++ b'/' ∷ d.d_name

abbrev pub holds {ℓ} : {A : Type ℓ} → (A → Bool) → Option A → Bool
holds p none = false
holds p (some t) = p t

-- The names in `evil_hardcoded_ignore_files`.
unfoldable pub is_evil : List ℕ → Bool
is_evil name = elim (strcmp name (b'.' ∷ [])) [
  | eq ↦ true
  | _ ↦ elim (strcmp name (b'.' ∷ b'.' ∷ [])) [ eq ↦ true | _ ↦ false ]
]

module _ (world : Outside) where
  unfoldable pub is_directory : List ℕ → Dirent → Bool
  is_directory path d =
      if not (is_type d.d_type unknown) && not (is_type d.d_type symlink)
      then is_type d.d_type directory
      else holds (is_type directory) (world.stat (full_path path d))

  unfoldable pub is_symlink : List ℕ → Dirent → Bool
  is_symlink path d =
      if not (is_type d.d_type unknown)
      then is_type d.d_type symlink
      else holds (is_type symlink) (world.lstat (full_path path d))

  unfoldable pub is_named_pipe : List ℕ → Dirent → Bool
  is_named_pipe path d =
      if not (is_type d.d_type unknown) && not (is_type d.d_type symlink)
      then is_type d.d_type fifo || is_type d.d_type socket
      else holds (λ t. is_type fifo t || is_type socket t) (world.stat (full_path path d))

  unfoldable pub ackmate_dir_match : List ℕ → Bool
  ackmate_dir_match dir_name = holds (λ f. f dir_name) world.dir_filter

  -- `binary_search(…) >= 0` on a whole array.
  unfoldable pub found : (needle : List ℕ) (haystack : List (List ℕ)) → Bool
  found needle haystack = holds (λ _. true) (binary_search needle haystack 0 (length haystack))

  -- One round of the loop over the names: the name's first place in the path is a whole component.
  unfoldable pub name_on_path : (slash_filename name : List ℕ) → Bool
  name_on_path slash_filename name =
      holds
        (λ pos.
          (pos == 0 || at slash_filename (pos - 1) == b'/')
          && (at slash_filename (pos + length name) == 0
              || at slash_filename (pos + length name) == b'/'))
        (strstr slash_filename name)

  -- The loop over an array of patterns: is one of them met?
  unfoldable pub any_of : (List ℕ → Bool) → List (List ℕ) → Bool
  any_of test [] = false
  any_of test (p ∷ ps) = test p || any_of test ps

  -- One slash at the start is left out.
  unfoldable pub skip_slash : List ℕ → List ℕ
  skip_slash s = if at s 0 == b'/' then drop 1 s else s

  -- The tests of the path below the directory of the node.
  unfoldable pub slash_ignored : Ignores → (slash_filename : List ℕ) → Bool
  slash_ignored ig slash_filename =
      found slash_filename ig.names
      || found slash_filename ig.slash_names
      || any_of (name_on_path slash_filename) ig.names
      || any_of (λ p. world.fnmatch p slash_filename) ig.slash_regexes

  unfoldable pub path_ignore_search : Ignores → (path filename : List ℕ) → Bool
  path_ignore_search ig path filename =
      let temp = (if at path 0 == b'.' then drop 1 path else path) ++ b'/' ∷ filename in
      let below = skip_slash temp in
      if found filename ig.names
      then true
      else if starts_with ig.abs_path below
          && slash_ignored ig (skip_slash (drop (length ig.abs_path) below))
      then true
      else if any_of (λ p. world.fnmatch p filename) ig.invert_regexes
      then false
      else if any_of (λ p. world.fnmatch p filename) ig.regexes
      then true
      else ackmate_dir_match temp

  -- What `filename_filter` tests at one node of the chain.
  unfoldable pub ignored_by :
      Ignores → (path path_start filename : List ℕ) (extension : Option (List ℕ)) → Dirent → Bool
  ignored_by ig path path_start filename extension d =
      holds (λ e. found e ig.extensions) extension
      || path_ignore_search ig path_start filename
      || (is_directory path d
          && not (at filename (length filename - 1) == b'/')
          && path_ignore_search ig path_start (filename ++ b'/' ∷ []))

  unfoldable pub ignored :
      Chain → (path path_start filename : List ℕ) (extension : Option (List ℕ)) → Dirent → Bool
  ignored [] path path_start filename extension d = false
  ignored (ig ∷ parents) path path_start filename extension d =
      ignored_by ig path path_start filename extension d
      || ignored parents path path_start filename extension d

  -- The text behind the first dot, unless the dot is the last character.
  unfoldable pub extension_of : List ℕ → Option (List ℕ)
  extension_of filename = elim (after_char b'.' filename) [
    | none ↦ none
    | some [] ↦ none
    | some (c ∷ e) ↦ some (c ∷ e)
  ]

  -- `true` keeps the entry.
  unfoldable pub filename_filter : FilterOpts → Chain → (path path_start : List ℕ) → Dirent → Bool
  filename_filter opts ig path path_start d =
      if not opts.search_hidden_files && at d.d_name 0 == b'.'
      then false
      else if is_evil d.d_name
      then false
      else if not opts.follow_symlinks && is_symlink path d
      then false
      else if is_named_pipe path d
      then false
      else if opts.search_all_files && not opts.path_to_ignore
      then true
      else not (
          ignored ig path path_start
            (if starts_with (b'.' ∷ b'/' ∷ []) d.d_name then drop 1 d.d_name else d.d_name)
            (extension_of d.d_name) d)
