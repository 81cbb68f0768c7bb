-- ===== src/Options/Config/Sorted.antt =====
-- The root node is sorted, whatever is added to it.
use the_silver_searcher.Base.{
  ℕ, ◌-◌, ◌<◌, ◌≡◌, refl, Bool, true, false, ◌||◌, Option, none, some, List, [], ◌∷◌, ◌++◌, length,
  take, at, ◌==◌, if◌then◌else◌, Returns, Bool-cases, Option-cases, inl, inr,
}
use the_silver_searcher.Ignore.{Ignores}
use the_silver_searcher.Ignore.Add.{
  trimmed_len, strip_dot, load_line, load_lines, load_ignore_patterns,
}
use the_silver_searcher.Ignore.Add.Keeps.{AllSorted, add_ignore_pattern-AllSorted}
use the_silver_searcher.Options.Config.{
  Home, IgnoreArgs, add_option, load_option, load_home, load_git, agignore, excludes_file,
  root_ignores,
}
use the_silver_searcher.Options.Config.Bytes.{read_res-all}

-- A pattern with no white space at its end.
abbrev pub IsTrimmed : List ℕ → Type 0
IsTrimmed pattern =
    trimmed_len (strip_dot pattern) (length (strip_dot pattern)) ≡ length (strip_dot pattern)

-- The pattern of a line.
abbrev pub pattern_of : List ℕ → List ℕ
pattern_of line = if at line (length line - 1) == b'\n' then take (length line - 1) line else line

pub data AreTrimmed : List (List ℕ) → Type 0 where
  nothing : AreTrimmed []
  comment :
      (line : List ℕ) (lines : List (List ℕ))
      → (at line 0 == b'\n' || at line 0 == b'#') ≡ true
      → AreTrimmed lines
      → AreTrimmed (line ∷ lines)
  pattern :
      (line : List ℕ) (lines : List (List ℕ))
      → IsTrimmed (pattern_of line)
      → AreTrimmed lines
      → AreTrimmed (line ∷ lines)

load_line-AllSorted :
    (ig : Ignores) (line : List ℕ)
    → IsTrimmed (pattern_of line)
    → AllSorted ig
    → AllSorted (load_line ig line)
unfolding load_line
load_line-AllSorted ig line trimmed s =
    elim (Bool-cases (at line 0 == b'\n' || at line 0 == b'#')) [
      | inl skip ↦ simp skip s
      | inr other ↦ elim (Bool-cases (at line (length line - 1) == b'\n')) [
        | inl e ↦
            simp (other, e)
              (add_ignore_pattern-AllSorted ig (take (length line - 1) line) (simp e at trimmed) s)
        | inr e ↦ simp (other, e) (add_ignore_pattern-AllSorted ig line (simp e at trimmed) s)
      ]
    ]

load_lines-AllSorted :
    (ig : Ignores) (lines : List (List ℕ))
    → AreTrimmed lines
    → AllSorted ig
    → AllSorted (load_lines ig lines)
unfolding load_lines load_line
load_lines-AllSorted ig [] nothing s = s
load_lines-AllSorted ig (line ∷ lines) (comment _ _ skip t) s =
    simp skip (load_lines-AllSorted ig lines t s)
load_lines-AllSorted ig (line ∷ lines) (pattern _ _ trimmed t) s =
    load_lines-AllSorted (load_line ig line) lines t (load_line-AllSorted ig line trimmed s)

module _ (lines : List ℕ → Option (List (List ℕ)))
    (files : (path : List ℕ) (ls : List (List ℕ)) → lines path ≡ some ls → AreTrimmed ls) where
  load-AllSorted :
      (path : List ℕ) (ig : Ignores)
      → AllSorted ig
      → AllSorted (load_ignore_patterns ig (lines path))
  unfolding load_ignore_patterns load_lines
  load-AllSorted path ig s = elim (Option-cases (lines path)) [
    | inl e ↦ simp e s
    | inr (ls, e) ↦ simp e (load_lines-AllSorted ig ls (files path ls e) s)
  ]

  load_option-AllSorted :
      (path : Option (List ℕ)) (ig : Ignores) → AllSorted ig → AllSorted (load_option lines path ig)
  load_option-AllSorted none ig s = s
  load_option-AllSorted (some path) ig s = load-AllSorted path ig s

  add_option-AllSorted :
      (pattern : Option (List ℕ)) (ig : Ignores)
      → ((p : List ℕ) → pattern ≡ some p → IsTrimmed p)
      → AllSorted ig
      → AllSorted (add_option lines pattern ig)
  add_option-AllSorted none ig trimmed s = s
  add_option-AllSorted (some p) ig trimmed s = add_ignore_pattern-AllSorted ig p (trimmed p refl) s

  load_home-AllSorted :
      (all : Bool) (home_dir : Option (List ℕ)) (ig : Ignores)
      → AllSorted ig
      → AllSorted (load_home lines all home_dir ig)
  unfolding load_home
  load_home-AllSorted all none ig s = s
  load_home-AllSorted true (some home_dir) ig s = s
  load_home-AllSorted false (some home_dir) ig s = load-AllSorted (home_dir ++ agignore) ig s

  load_git-AllSorted :
      (fuel : ℕ) (skip : Bool) (h : Home) (git : Option (List ℕ)) (ig : Ignores)
      → ((printed : List ℕ) → git ≡ some printed → length printed < fuel)
      → AllSorted ig
      → Returns (load_git lines fuel skip h git ig) AllSorted
  unfolding load_git
  load_git-AllSorted fuel skip h none ig enough s = (ig, refl, s)
  load_git-AllSorted fuel true h (some printed) ig enough s = (ig, refl, s)
  load_git-AllSorted fuel false h (some printed) ig enough s =
      let (r, done_r, _) = read_res-all fuel printed (enough printed refl) in
      simp done_r (_, refl, load-AllSorted (excludes_file h r) ig s)

  -- Where no pattern of the options or of the files has white space at its end, the root node is built, within one
  -- round more than git prints bytes, and if its six arrays have been sorted they are so behind it.
  pub root_ignores-AllSorted :
      (fuel : ℕ) (a : IgnoreArgs) (ig : Ignores)
      → ((p : List ℕ) → a.ignore_dir ≡ some p → IsTrimmed p)
      → ((p : List ℕ) → a.ignore ≡ some p → IsTrimmed p)
      → ((printed : List ℕ) → a.git ≡ some printed → length printed < fuel)
      → AllSorted ig
      → Returns (root_ignores lines fuel a ig) AllSorted
  unfolding root_ignores
  root_ignores-AllSorted fuel a ig dir_trimmed trimmed enough s =
      load_git-AllSorted fuel a.skip_vcs_ignores a.home a.git _ enough (
        load_home-AllSorted a.search_all_files a.home.home_dir _ (
          load_option-AllSorted a.path_to_ignore _ (
            add_option-AllSorted a.ignore _ trimmed
              (add_option-AllSorted a.ignore_dir ig dir_trimmed s))))
