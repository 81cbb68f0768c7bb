-- ===== src/Program.antt =====
-- src/main.c: how many workers there are, the walk through the paths, the search of the files in the queue, and the
-- exit status.
pub mod Workers
pub mod Paths
pub mod Status
mod Examples
use the_silver_searcher.Base.{
  ℕ, zero, suc, ◌-◌, Bool, true, false, Option, none, some, List, [], ◌∷◌, ltb, ◌==◌, if◌then◌else◌,
  Run, done, then_run,
}
use the_silver_searcher.Base.Signed.{ℤ, pos, negsuc}
use the_silver_searcher.Ignore.{Chain, init_ignore}
use the_silver_searcher.Queue.{FilePath}
use the_silver_searcher.Walk
use the_silver_searcher.Walk.{WalkOpts, Walked, search_dir}
use the_silver_searcher.Buffer.{World}
use the_silver_searcher.Buffer.File.{FileOpts, FileView, search_file}

abbrev pub at_most_8 : ℤ → ℤ
at_most_8 (pos n) = if ltb n 8 then pos n else pos 8
at_most_8 (negsuc n) = negsuc n

abbrev pub decrement : ℤ → ℤ
decrement (pos zero) = negsuc zero
decrement (pos (suc n)) = pos n
decrement (negsuc n) = negsuc (suc n)

abbrev pub at_least_1 : ℤ → ℕ
at_least_1 (pos n) = if ltb n 1 then 1 else n
at_least_1 (negsuc n) = 1

abbrev pub or_default : (asked default : ℤ) → ℤ
or_default (pos zero) default = default
or_default (pos (suc n)) default = pos (suc n)
or_default (negsuc n) default = negsuc n

-- `num_cores` is -1 if it is not known, `workers` 0 if it is not given.
unfoldable pub workers_len : (num_cores : ℤ) (literal : Bool) (workers : ℤ) → ℕ
workers_len num_cores literal workers =
    let by_cores = at_most_8 num_cores in
    at_least_1 (or_default workers (if literal then decrement by_cores else by_cores))

-- A path that is given, and the one that it stands for.
pub record PathArg : Type 0 where
  pub path : List ℕ
  pub base_path : Option (List ℕ)

-- `st_dev`, 0 where it is not asked for or not known.
unfoldable pub device_of : Walk.World → WalkOpts → (path : List ℕ) → ℕ
device_of w opts path =
    if opts.one_dev then elim (w.device path) [ none ↦ 0 | some dev ↦ dev ] else 0

-- The loop over the paths; `fuel` is that of each walk, and `root_ignores` what `parse_options` has added to.
unfoldable pub walk_paths :
    Walk.World → WalkOpts → (fuel : ℕ) (root_ignores : Chain) → List PathArg → Walked → Run Walked
walk_paths w opts fuel root_ignores [] st = done st
walk_paths w opts fuel root_ignores (a ∷ args) st =
    then_run
      (search_dir w opts a.base_path (device_of w opts a.path) fuel 0 (init_ignore root_ignores [])
        a.path (record st { symhash = [] }))
      (walk_paths w opts fuel root_ignores args)

-- Behind the search of a file: the next one, or the end of the program.
unfoldable pub go_on : (next : World → Run (Option World)) → Option World → Run (Option World)
go_on next none = done none
go_on next (some w) = next w

-- The files that the workers search, in the order in which they do.
unfoldable pub search_files :
    FileOpts → (view : FilePath → FileView) → List FilePath → World → Run (Option World)
search_files o view [] w = done (some w)
search_files o view (p ∷ ps) w =
    then_run (search_file o (view p) w) (go_on (search_files o view ps))

-- The status of `main`; there is none where the program ends in the search of a file.
unfoldable pub exit_status : Option World → Option ℕ
exit_status none = none
exit_status (some w) = some (if w.match_found then 0 else 1)

unfoldable pub run_status :
    FileOpts → (view : FilePath → FileView) → List FilePath → World → Run (Option ℕ)
run_status o view files w = then_run (search_files o view files w) (λ r. done (exit_status r))
