-- ===== src/Walk/Guard.antt =====
-- With a limit on the depth the walk returns, and the guard against loops is left as it was found.
use the_silver_searcher.Base.{
  ℕ, zero, suc, ◌+◌, ◌-◌, ◌<◌, ◌≡◌, refl, sym, ap, ◌∙◌, true, false, ◌&&◌, not, Option, none, some,
  List, [], ◌∷◌, ltb, ◌==◌, Run, then_run, Returns, arith, Bool-cases, Option-cases, inl, inr,
}
use the_silver_searcher.Ignore.{Chain, init_ignore}
use the_silver_searcher.Ignore.Filter.{Dirent, is_directory, is_symlink, full_path}
use the_silver_searcher.Scandir.{Outcome, listed, failed}
use the_silver_searcher.Walk.{
  Key, World, WalkOpts, Walked, Listing, entries, not_directory, unreadable, has_key, delete_key,
  check_symloop_enter, check_symloop_leave, load_ignores, off_device, add_file, may_descend,
  on_entry, entries_loop, on_outcome, on_listing, on_symloop, search_dir,
}

-- The run returns, and the keys are those of `st`.
abbrev pub Restores : Walked → Run Walked → Type 0
Restores st r = Returns r (λ t. t.symhash ≡ st.symhash)

-- No directory has device 0 and inode 0, which stand for an unknown key.
abbrev pub IsKeyed : World → Type 0
IsKeyed w = (path : List ℕ) (k : Key) → w.key path ≡ some k → (k.dev == 0 && k.ino == 0) ≡ false

delete_key-same : (k : Key) (symhash : List Key) → delete_key k (k ∷ symhash) ≡ symhash
unfolding delete_key
delete_key-same k symhash = ground arith

module _ (w : World) (opts : WalkOpts) (base_path : Option (List ℕ)) (original_dev : ℕ) where
  then_run-Restores :
      (st : Walked) (r : Run Walked) (f : Walked → Run Walked)
      → Restores st r
      → ((t : Walked) → Restores t (f t))
      → Restores st (then_run r f)
  then_run-Restores st r f (t, e, same) h = let (u, e', same') = h t in rw e (u, e', same' ∙ same)

  add_file-symhash :
      (st : Walked) (full : List ℕ)
      → (add_file w opts base_path original_dev st full).symhash ≡ st.symhash
  unfolding add_file
  add_file-symhash st full = elim (Option-cases w.file_search_regex) [
    | inl e ↦ rw e refl
    | inr (matches, e) ↦ rw e (elim (Bool-cases (matches full)) [
      | inl f ↦ rw f (elim (Bool-cases opts.match_files) [ inl g ↦ rw g refl | inr g ↦ rw g refl ])
      | inr f ↦ rw f refl
    ])
  ]

  module _ (below : Chain → List ℕ → Walked → Run Walked) (depth : ℕ)
      (h : may_descend opts.max_search_depth depth ≡ true
        → (ig : Chain) (path : List ℕ) (st : Walked) → Restores st (below ig path st)) where
    on_entry-Restores :
        (ig : Chain) (path : List ℕ) (d : Dirent) (st : Walked)
        → Restores st (on_entry w opts base_path original_dev below depth ig path d st)
    unfolding on_entry
    on_entry-Restores ig path d st =
        elim (Bool-cases (off_device w opts base_path original_dev (full_path path d))) [
          | inl a ↦ rw a (st, refl, refl)
          | inr a ↦
              rw a
                (elim (Bool-cases
                  (not opts.filter.follow_symlinks && is_symlink w.outside path d)) [
                    | inl b ↦ rw b (st, refl, refl)
                    | inr b ↦ rw b (elim (Bool-cases (is_directory w.outside path d)) [
                      | inr c ↦ rw c (_, refl, add_file-symhash st (full_path path d))
                      | inl c ↦
                          rw c
                            (elim (Bool-cases
                              (opts.recurse_dirs && may_descend opts.max_search_depth depth)) [
                                | inl go ↦ rw go (
                                    h (ground arith) (init_ignore ig d.d_name) (full_path path d)
                                      st)
                                | inr stay ↦ rw stay (st, refl, refl)
                              ])
                    ])
                  ])
        ]

    entries_loop-Restores :
        (ig : Chain) (path : List ℕ) (ds : List Dirent) (st : Walked)
        → Restores st (entries_loop w opts base_path original_dev below depth ig path ds st)
    unfolding entries_loop
    entries_loop-Restores ig path [] st = (st, refl, refl)
    entries_loop-Restores ig path (d ∷ ds) st =
        then_run-Restores st (on_entry w opts base_path original_dev below depth ig path d st) _
          (on_entry-Restores ig path d st) (λ t. entries_loop-Restores ig path ds t)

    on_outcome-Restores :
        (ig : Chain) (path : List ℕ) (o : Outcome Dirent) (st : Walked)
        → Restores st (on_outcome w opts base_path original_dev below depth ig path o st)
    unfolding on_outcome
    on_outcome-Restores ig path (listed names room) st = entries_loop-Restores ig path names st
    on_outcome-Restores ig path (failed leaked) st = (st, refl, refl)

    on_listing-Restores :
        (ig : Chain) (path : List ℕ) (l : Listing) (st : Walked)
        → Restores st (on_listing w opts base_path original_dev below depth ig path l st)
    unfolding on_listing
    on_listing-Restores ig path (entries ds) st = on_outcome-Restores ig path _ st
    on_listing-Restores ig path not_directory st = (_, refl, refl)
    on_listing-Restores ig path unreadable st = (st, refl, refl)

  guard-Restores :
      (key : Option Key) (body : Walked → Run Walked) (st : Walked)
      → ((k : Key) → key ≡ some k → (k.dev == 0 && k.ino == 0) ≡ false)
      → ((t : Walked) → Restores t (body t))
      → Restores st
          (on_symloop w opts base_path original_dev body st (check_symloop_enter key st.symhash))
  unfolding check_symloop_enter on_symloop check_symloop_leave
  guard-Restores none body st keyed h = let (t, e, same) = h st in rw e (_, refl, same)
  guard-Restores (some k) body st keyed h = elim (Bool-cases (has_key k st.symhash)) [
    | inl seen ↦ rw seen (st, refl, refl)
    | inr new ↦
        let (t, e, same) = h (record st { symhash = k ∷ st.symhash }) in
        rw (new, e)
          (_, refl, rw (keyed k refl) (ap (delete_key k) same ∙ delete_key-same k st.symhash))
  ]

  -- With a limit on the depth, and no directory of device 0 and inode 0, the walk returns once it may enter
  -- as many levels as the limit leaves and one more; and every key that it has put into the guard against
  -- loops is taken out again.
  pub search_dir-Restores :
      (m fuel depth : ℕ)
      → IsKeyed w
      → opts.max_search_depth ≡ some m
      → m - depth < fuel
      → (ig : Chain) (path : List ℕ) (st : Walked)
      → Restores st (search_dir w opts base_path original_dev fuel depth ig path st)
  unfolding search_dir
  search_dir-Restores m zero depth keyed limit enough ig path st = absurd (omega arith)
  search_dir-Restores m (suc fuel) depth keyed limit enough ig path st =
      guard-Restores (w.key path) _ st (keyed path) (
        on_listing-Restores (search_dir w opts base_path original_dev fuel (depth + 1)) depth
          (λ go.
            search_dir-Restores m fuel (depth + 1) keyed limit
              (within (sym (ap (λ o. may_descend o depth) limit) ∙ go)))
          (load_ignores w opts base_path original_dev path ig) path (w.listing path))
    where
      within : ltb depth m ≡ true → m - (depth + 1) < fuel
      within go = ground (arith, go)
