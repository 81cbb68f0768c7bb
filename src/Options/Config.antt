-- ===== src/Options/Config.antt =====
-- What `parse_options` of src/options.c adds to the root node of the ignore patterns, from the options and from files.
pub mod Bytes
pub mod Sorted
use the_silver_searcher.Base.{
  ℕ, zero, suc, ◌+◌, ◌%◌, Bool, true, false, not, ◌&&◌, Option, none, some, List, [], ◌∷◌, ◌++◌,
  length, take, drop, ltb, ◌==◌, if◌then◌else◌, Run, done, out_of_fuel, then_run,
}
use the_silver_searcher.Ignore.{Ignores}
use the_silver_searcher.Ignore.Add.{add_ignore_pattern, load_ignore_patterns}

-- `gitconfig_res` with the room that it has.
pub record Res : Type 0 where
  pub bytes : List ℕ
  pub room : ℕ

-- The loop that reads what git prints; `unread` is what is left of it. A piece that is not full meets its end.
unfoldable pub read_res : (fuel : ℕ) (unread : List ℕ) → (buf : List ℕ) → Run Res
read_res zero unread buf = out_of_fuel
read_res (suc fuel) unread buf =
    let piece = take 64 unread in
    let got = buf ++ piece in
    let again = read_res fuel (drop 64 unread) got in
    if not (ltb (length piece) 64) && ltb 0 (length got) && length got % 64 == 0
    then again
    else done (record { bytes = got; room = length buf + 65 })

-- The string that begins the bytes.
abbrev pub until_nul : List ℕ → List ℕ
until_nul [] = []
until_nul (zero ∷ s) = []
until_nul (suc c ∷ s) = suc c ∷ until_nul s

-- The variables of the environment, NULL as `none`.
pub record Home : Type 0 where
  pub home_dir : Option (List ℕ)
  pub config_home : Option (List ℕ)

abbrev pub git_ignore : List ℕ
git_ignore = b'/' ∷ b'g' ∷ b'i' ∷ b't' ∷ b'/' ∷ b'i' ∷ b'g' ∷ b'n' ∷ b'o' ∷ b'r' ∷ b'e' ∷ []

abbrev pub config_git_ignore : List ℕ
config_git_ignore =
    b'/' ∷ b'.' ∷ b'c' ∷ b'o' ∷ b'n' ∷ b'f' ∷ b'i' ∷ b'g' ∷ b'/' ∷ b'g' ∷ b'i' ∷ b't' ∷ b'/' ∷ b'i'
    ∷ b'g' ∷ b'n' ∷ b'o' ∷ b'r' ∷ b'e' ∷ []

abbrev pub agignore : List ℕ
agignore = b'/' ∷ b'.' ∷ b'a' ∷ b'g' ∷ b'i' ∷ b'g' ∷ b'n' ∷ b'o' ∷ b'r' ∷ b'e' ∷ []

-- The file that git names, or the one that it takes if none is set.
unfoldable pub default_file : Home → List ℕ
default_file h = elim h.config_home [
  | some config_home ↦ config_home ++ git_ignore
  | none ↦ elim h.home_dir [ some home_dir ↦ home_dir ++ config_git_ignore | none ↦ [] ]
]

unfoldable pub excludes_file : Home → Res → List ℕ
excludes_file h r = if length r.bytes == 0 then default_file h else until_nul r.bytes

-- The options, and what git prints, `none` where it cannot be started.
pub record IgnoreArgs : Type 0 where
  pub ignore_dir : Option (List ℕ)
  pub ignore : Option (List ℕ)
  pub path_to_ignore : Option (List ℕ)
  pub search_all_files : Bool
  pub skip_vcs_ignores : Bool
  pub git : Option (List ℕ)
  pub home : Home

-- The lines of a file, `none` where it cannot be opened.
module _ (lines : List ℕ → Option (List (List ℕ))) where
  abbrev pub add_option : Option (List ℕ) → Ignores → Ignores
  add_option none ig = ig
  add_option (some pattern) ig = add_ignore_pattern ig pattern

  abbrev pub load_option : Option (List ℕ) → Ignores → Ignores
  load_option none ig = ig
  load_option (some path) ig = load_ignore_patterns ig (lines path)

  -- `.agignore` in the home directory.
  unfoldable pub load_home :
      (search_all_files : Bool) (home_dir : Option (List ℕ)) → Ignores → Ignores
  load_home search_all_files none ig = ig
  load_home search_all_files (some home_dir) ig =
      if not search_all_files then load_ignore_patterns ig (lines (home_dir ++ agignore)) else ig

  unfoldable pub load_git :
      (fuel : ℕ) (skip_vcs_ignores : Bool) → Home → (git : Option (List ℕ)) → Ignores → Run Ignores
  load_git fuel skip_vcs_ignores h none ig = done ig
  load_git fuel skip_vcs_ignores h (some printed) ig =
      if skip_vcs_ignores
      then done ig
      else then_run (read_res fuel printed [])
          (λ r. done (load_ignore_patterns ig (lines (excludes_file h r))))

  -- All of it, in the order of the code.
  unfoldable pub root_ignores : (fuel : ℕ) → IgnoreArgs → Ignores → Run Ignores
  root_ignores fuel a ig = load_git fuel a.skip_vcs_ignores a.home a.git (
      load_home a.search_all_files a.home.home_dir
        (load_option a.path_to_ignore (add_option a.ignore (add_option a.ignore_dir ig))))
