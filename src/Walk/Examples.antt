-- ===== src/Walk/Examples.antt =====
-- A walk through a loop of symbolic links, and the theorem of the guard at it.
use the_silver_searcher.Base.{
  ℕ, ◌≡◌, refl, Bool, true, false, none, some, List, [], ◌∷◌, done, arith, if◌then◌else◌, ◌==◌,
}
use the_silver_searcher.Ignore.{Chain, init_ignore}
use the_silver_searcher.Ignore.Filter.{
  Dirent, FileType, filename_filter, is_evil, is_named_pipe, is_symlink, is_directory,
}
use the_silver_searcher.Ignore.Add.{load_ignore_patterns}
use the_silver_searcher.Base.Bytes.{strcmp}
use the_silver_searcher.Scandir.{ag_scandir, scan, keep, store}
use the_silver_searcher.Walk.{
  World, WalkOpts, Walked, entries, unreadable, search_dir, on_symloop, check_symloop_enter,
  has_key, on_listing, on_outcome, load_ignores, load_files, off_device, add_file, on_entry,
  entries_loop, check_symloop_leave, delete_key, path_start_of,
}
use the_silver_searcher.Walk.Guard.{Restores, IsKeyed, search_dir-Restores}

-- "d" holds a file "f" and a link "l" to "d" itself.
abbrev f_and_l : List Dirent
f_and_l =
    record { d_name = b'f' ∷ []; d_type = FileType.regular }
    ∷ record { d_name = b'l' ∷ []; d_type = FileType.symlink }
    ∷ []

abbrev ends_in_f : List ℕ → Bool
ends_in_f [] = false
ends_in_f (c ∷ []) = c == b'f'
ends_in_f (c ∷ d ∷ s) = ends_in_f (d ∷ s)

abbrev world : World
world = record {
  outside = record {
    stat = λ p. some (if ends_in_f p then FileType.regular else FileType.directory);
    lstat = λ p. some (if ends_in_f p then FileType.regular else FileType.symlink);
    fnmatch = λ p s. false;
    dir_filter = none;
  };
  key = λ p. some (record { dev = 1; ino = 7 });
  device = λ p. some 1;
  lines = λ p. none;
  listing = λ p. if ends_in_f p then unreadable else entries f_and_l;
  file_search_regex = none;
}

abbrev follow : WalkOpts
follow = record {
  filter = record {
    search_hidden_files = false;
    follow_symlinks = true;
    search_all_files = true;
    path_to_ignore = false;
  };
  skip_vcs_ignores = true;
  one_dev = false;
  match_files = false;
  recurse_dirs = true;
  max_search_depth = some 25;
}

abbrev start : Walked
start = record { symhash = []; queued = []; printed = []; searched = [] }

abbrev root : Chain
root = init_ignore [] []

world-IsKeyed : IsKeyed world
world-IsKeyed path k e = ground (arith, e)

search_dir-Restores_example :
    Restores start (search_dir world follow none 1 26 0 root (b'd' ∷ []) start)
search_dir-Restores_example =
    search_dir-Restores world follow none 1 25 26 0 world-IsKeyed refl (omega arith) root
      (b'd' ∷ []) start

-- The file is found once.
walk_runs :
    search_dir world follow none 1 26 0 root (b'd' ∷ []) start
    ≡ done (record start { queued = (b'd' ∷ b'/' ∷ b'f' ∷ []) ∷ [] })
unfolding search_dir on_symloop check_symloop_enter has_key on_listing on_outcome ag_scandir scan
    keep store filename_filter is_evil strcmp is_named_pipe is_symlink is_directory load_ignores
    load_files load_ignore_patterns init_ignore off_device add_file on_entry entries_loop
    check_symloop_leave delete_key path_start_of
walk_runs = refl
