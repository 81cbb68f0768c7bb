-- ===== src/Program/Paths.antt =====
-- The walk through the paths ends.
use the_silver_searcher.Base.{ℕ, ◌<◌, ◌≡◌, refl, some, List, [], ◌∷◌, Returns, arith}
use the_silver_searcher.Ignore.{Chain, init_ignore}
use the_silver_searcher.Walk
use the_silver_searcher.Walk.{WalkOpts, Walked}
use the_silver_searcher.Walk.Guard.{IsKeyed, search_dir-Restores}
use the_silver_searcher.Program.{PathArg, device_of, walk_paths}

-- With a limit on the depth, and no directory of device 0 and inode 0, the walk through all paths returns once it may
-- enter one level more than the limit, and the guard against loops is empty behind it.
walk_paths-Returns :
    (w : Walk.World) (opts : WalkOpts) (m fuel : ℕ) (root_ignores : Chain) (args : List PathArg)
    (st : Walked)
    → IsKeyed w
    → opts.max_search_depth ≡ some m
    → m < fuel
    → st.symhash ≡ []
    → Returns (walk_paths w opts fuel root_ignores args st) (λ t. t.symhash ≡ [])
unfolding walk_paths
walk_paths-Returns w opts m fuel root [] st keyed limit enough none_left = (st, refl, none_left)
walk_paths-Returns w opts m fuel root (a ∷ args) st keyed limit enough none_left =
    let (t, e, left) =
      search_dir-Restores w opts a.base_path (device_of w opts a.path) m fuel 0 keyed limit
        (omega (arith, enough)) (init_ignore root []) a.path (record st { symhash = [] }) in
    simp e (walk_paths-Returns w opts m fuel root args t keyed limit enough left)
