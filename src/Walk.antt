-- ===== src/Walk.antt =====
-- `search_dir` of src/search.c: the walk through a directory and those below it, with its guard against
-- loops of symbolic links.
pub mod Guard
mod Examples
use the_silver_searcher.Base.{
  ℕ, zero, suc, ◌+◌, Bool, true, false, ◌&&◌, ◌||◌, not, Option, none, some, List, [], ◌∷◌, ◌++◌,
  drop, ltb, ◌==◌, if◌then◌else◌, Run, then_run, done, out_of_fuel,
}
use the_silver_searcher.Ignore.{Ignores, Chain, init_ignore}
use the_silver_searcher.Ignore.Add.{load_ignore_patterns}
use the_silver_searcher.Ignore.Filter.{
  Dirent, FilterOpts, Outside, is_directory, is_symlink, filename_filter, full_path,
}
use the_silver_searcher.Scandir.{Outcome, listed, failed, ag_scandir}

-- `dirkey_t`.
pub record Key : Type 0 where
  pub dev : ℕ
  pub ino : ℕ

-- What `opendir` and `readdir` give of a path; `not_directory` is ENOTDIR.
pub data Listing : Type 0 where
  entries : List Dirent → Listing
  not_directory : Listing
  unreadable : Listing

-- The file system: `key` is `st_dev` and `st_ino` by `stat`, `device` is `st_dev` by `lstat`, `lines` the
-- lines of a file that can be read; `file_search_regex` is the truth of `tre_regnexec`, if there is one.
pub record World : Type 0 where
  pub outside : Outside
  pub key : List ℕ → Option Key
  pub device : List ℕ → Option ℕ
  pub lines : List ℕ → Option (List (List ℕ))
  pub listing : List ℕ → Listing
  pub file_search_regex : Option (List ℕ → Bool)

-- The options that the walk reads; no `max_search_depth` is -1.
pub record WalkOpts : Type 0 where
  pub filter : FilterOpts
  pub skip_vcs_ignores : Bool
  pub one_dev : Bool
  pub match_files : Bool
  pub recurse_dirs : Bool
  pub max_search_depth : Option ℕ

-- `symhash`, the paths put into the queue, those printed for -g, and those searched at once.
pub record Walked : Type 0 where
  pub symhash : List Key
  pub queued : List (List ℕ)
  pub printed : List (List ℕ)
  pub searched : List (List ℕ)

abbrev pub same_key : Key → Key → Bool
same_key a b = a.dev == b.dev && a.ino == b.ino

unfoldable pub has_key : Key → List Key → Bool
has_key k [] = false
has_key k (x ∷ xs) = same_key k x || has_key k xs

unfoldable pub delete_key : Key → List Key → List Key
delete_key k [] = []
delete_key k (x ∷ xs) = if same_key k x then xs else x ∷ delete_key k xs

-- What `check_symloop_enter` returns; in every case it writes the key.
pub data Symloop : Type 0 where
  error ok loop : Symloop

unfoldable pub check_symloop_enter : Option Key → List Key → Symloop × Key × List Key
check_symloop_enter none symhash = (error, record { dev = 0; ino = 0 }, symhash)
check_symloop_enter (some k) symhash =
    if has_key k symhash then (loop, k, symhash) else (ok, k, k ∷ symhash)

unfoldable pub check_symloop_leave : Key → List Key → List Key
check_symloop_leave k symhash = if k.dev == 0 && k.ino == 0 then symhash else delete_key k symhash

abbrev pub ignore_pattern_files : List (List ℕ)
ignore_pattern_files =
    (b'.' ∷ b'i' ∷ b'g' ∷ b'n' ∷ b'o' ∷ b'r' ∷ b'e' ∷ [])
    ∷ (b'.' ∷ b'g' ∷ b'i' ∷ b't' ∷ b'i' ∷ b'g' ∷ b'n' ∷ b'o' ∷ b'r' ∷ b'e' ∷ [])
    ∷ (b'.' ∷ b'g' ∷ b'i' ∷ b't' ∷ b'/' ∷ b'i' ∷ b'n' ∷ b'f' ∷ b'o' ∷ b'/' ∷ b'e' ∷ b'x' ∷ b'c'
        ∷ b'l' ∷ b'u' ∷ b'd' ∷ b'e' ∷ [])
    ∷ (b'.' ∷ b'h' ∷ b'g' ∷ b'i' ∷ b'g' ∷ b'n' ∷ b'o' ∷ b'r' ∷ b'e' ∷ [])
    ∷ []

-- How far `base_path` and `path` agree.
unfoldable pub agree : (base_path path : List ℕ) → ℕ
agree [] path = 0
agree (b ∷ bs) [] = 0
agree (b ∷ bs) (p ∷ ps) = let rest = agree bs ps in if b == p then suc rest else 0

unfoldable pub path_start_of : Option (List ℕ) → List ℕ → List ℕ
path_start_of none path = path
path_start_of (some base_path) path = drop (agree base_path path) path

-- Whether the limit on the depth lets the walk go below a directory.
abbrev pub may_descend : (max_search_depth : Option ℕ) (depth : ℕ) → Bool
may_descend none depth = true
may_descend (some m) depth = ltb depth m

module _ (w : World) (opts : WalkOpts) (base_path : Option (List ℕ)) (original_dev : ℕ) where
  unfoldable pub load_files : (files : List (List ℕ)) → (path : List ℕ) → Ignores → Ignores
  load_files [] path ig = ig
  load_files (f ∷ fs) path ig =
      load_files fs path (load_ignore_patterns ig (w.lines (path ++ b'/' ∷ f)))

  -- The patterns of the directory are loaded into the nearest node.
  unfoldable pub load_ignores : (path : List ℕ) → Chain → Chain
  load_ignores path [] = []
  load_ignores path (ig ∷ parents) =
      load_files
        (if opts.skip_vcs_ignores
          then (b'.' ∷ b'i' ∷ b'g' ∷ b'n' ∷ b'o' ∷ b'r' ∷ b'e' ∷ []) ∷ []
          else ignore_pattern_files)
        path ig
      ∷ parents

  -- Whether --one-device keeps the walk from the entry.
  unfoldable pub off_device : (full : List ℕ) → Bool
  off_device full =
      opts.one_dev && elim (w.device full) [ none ↦ true | some dev ↦ not (dev == original_dev) ]

  unfoldable pub add_file : Walked → (full : List ℕ) → Walked
  add_file st full = elim w.file_search_regex [
    | none ↦ record st { queued = st.queued ++ full ∷ [] }
    | some matches ↦
        if not (matches full)
        then st
        else if opts.match_files
        then record st { printed = st.printed ++ full ∷ [] }
        else record st { queued = st.queued ++ full ∷ [] }
  ]

  -- One entry; `below` is the walk through a directory one level deeper.
  unfoldable pub on_entry :
      (below : Chain → List ℕ → Walked → Run Walked)
      → (depth : ℕ) → Chain
      → (path : List ℕ) → Dirent
      → Walked
      → Run Walked
  on_entry below depth ig path d st =
      if off_device (full_path path d)
      then done st
      else if not opts.filter.follow_symlinks && is_symlink w.outside path d
      then done st
      else if not (is_directory w.outside path d)
      then done (add_file st (full_path path d))
      else if opts.recurse_dirs && may_descend opts.max_search_depth depth
      then below (init_ignore ig d.d_name) (full_path path d) st
      else done st

  unfoldable pub entries_loop :
      (below : Chain → List ℕ → Walked → Run Walked)
      → (depth : ℕ) → Chain
      → (path : List ℕ) → List Dirent
      → Walked
      → Run Walked
  entries_loop below depth ig path [] st = done st
  entries_loop below depth ig path (d ∷ ds) st =
      then_run (on_entry below depth ig path d st) (entries_loop below depth ig path ds)

  unfoldable pub on_outcome :
      (below : Chain → List ℕ → Walked → Run Walked)
      → (depth : ℕ) → Chain
      → (path : List ℕ) → Outcome Dirent
      → Walked
      → Run Walked
  on_outcome below depth ig path (failed leaked) st = done st
  on_outcome below depth ig path (listed names room) st = entries_loop below depth ig path names st

  unfoldable pub on_listing :
      (below : Chain → List ℕ → Walked → Run Walked)
      → (depth : ℕ) → Chain
      → (path : List ℕ) → Listing
      → Walked
      → Run Walked
  on_listing below depth ig path (entries ds) st =
      on_outcome below depth ig path
        (ag_scandir (filename_filter w.outside opts.filter ig path (path_start_of base_path path))
          (λ n. true) true ds)
        st
  on_listing below depth ig path not_directory st =
      done (record st { searched = st.searched ++ path ∷ [] })
  on_listing below depth ig path unreadable st = done st

  -- Behind `check_symloop_enter`.
  unfoldable pub on_symloop :
      (body : Walked → Run Walked) → Walked → Symloop × Key × List Key → Run Walked
  on_symloop body st (loop, k, symhash) = done st
  on_symloop body st (ok, k, symhash) =
      then_run (body (record st { symhash = symhash }))
        (λ t. done (record t { symhash = check_symloop_leave k t.symhash }))
  on_symloop body st (error, k, symhash) =
      then_run (body (record st { symhash = symhash }))
        (λ t. done (record t { symhash = check_symloop_leave k t.symhash }))

  -- `fuel` is the number of levels that may be entered.
  unfoldable pub search_dir : (fuel depth : ℕ) → Chain → (path : List ℕ) → Walked → Run Walked
  search_dir zero depth ig path st = out_of_fuel
  search_dir (suc fuel) depth ig path st =
      let below = search_dir fuel (depth + 1) in
      on_symloop (on_listing below depth (load_ignores path ig) path (w.listing path)) st
        (check_symloop_enter (w.key path) st.symhash)
