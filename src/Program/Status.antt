-- ===== src/Program/Status.antt =====
-- The exit status, whatever the order in which the workers search the files.
use mathlib.Core.Bool.{or-false}
use the_silver_searcher.Base.{
  ℕ, ◌+◌, ◌≤◌, ◌<◌, ◌≡◌, refl, sym, ap, ◌∙◌, Bool, true, false, ◌||◌, some, List, [], ◌∷◌, ◌++◌,
  length, ltb, if◌then◌else◌, done, arith,
}
use the_silver_searcher.Matcher.Occurrence.{IsFolded}
use the_silver_searcher.Queue.{FilePath, System, Reach, finished}
use the_silver_searcher.Queue.Count.{weight, weight-append}
use the_silver_searcher.Queue.Reached.{all_searched}
use the_silver_searcher.Buffer.{World}
use the_silver_searcher.Buffer.File.{Stat, FileOpts, FileView}
use the_silver_searcher.Buffer.File.Read.{IsSound}
use the_silver_searcher.Buffer.File.Steady.{search_file-finds}
use the_silver_searcher.Program.{go_on, search_files, exit_status, run_status}

-- The newest is first in the record of the files searched.
abbrev pub oldest_first : List FilePath → List FilePath
oldest_first [] = []
oldest_first (p ∷ ps) = oldest_first ps ++ p ∷ []

weight-oldest_first :
    (weigh : FilePath → ℕ) (ps : List FilePath) → weight weigh (oldest_first ps) ≡ weight weigh ps
weight-oldest_first weigh [] = refl
weight-oldest_first weigh (p ∷ ps) =
    omega (arith, weight-append weigh (oldest_first ps) (p ∷ []), weight-oldest_first weigh ps)

module _ (o : FileOpts) (view : FilePath → FileView) (literal : o.buf.literal ≡ true)
    (plain : o.buf.query.invert_match ≡ false) (some_byte : 0 < length o.buf.query.query)
    (short : length o.buf.query.query ≤ 16384)
    (folded : IsFolded o.buf.query.case_insensitive o.buf.query.query (length o.buf.query.query))
    (sound : (p : FilePath) (s : Stat)
      → (view p).fstat ≡ some s
      → IsSound o (view p) s.st_size) where
  -- A file counts where something is found in it.
  weigh : FilePath → ℕ
  weigh p =
      if (search_file-finds o (view p) literal plain some_byte short folded (sound p)).0
      then 1
      else 0

  one_more :
      (b found : Bool) (n : ℕ)
      → ((b || found) || ltb 0 n) ≡ (b || ltb 0 ((if found then 1 else 0) + n))
  one_more true found n = refl
  one_more false true n = ground arith
  one_more false false n = ground arith

  search_files-found :
      (files : List FilePath) (w : World)
      → (w' : World) × (search_files o view files w ≡ done (some w'))
        × (w'.match_found ≡ (w.match_found || ltb 0 (weight weigh files)))
  unfolding search_files go_on weigh
  search_files-found [] w = (w, refl, sym (or-false w.match_found))
  search_files-found (p ∷ files) w =
      let (finds, runs) =
        search_file-finds o (view p) literal plain some_byte short folded (sound p) in
      let (w', e, found) = runs w in
      let (w'', e', found') = search_files-found files w' in
      (
        w'',
        simp e e',
        found'
            ∙ ap (λ b. b || ltb 0 (weight weigh files)) found
            ∙ one_more w.match_found finds (weight weigh files),
      )

  run_status-weight :
      (files : List FilePath) (w : World)
      → w.match_found ≡ false
      → run_status o view files w ≡ done (some (if ltb 0 (weight weigh files) then 0 else 1))
  unfolding run_status exit_status
  run_status-weight files w none_yet =
      let (w', e, found) = search_files-found files w in
      simp e (
        ap (λ b. done (some (if b then 0 else 1)))
          (found ∙ ap (λ b. b || ltb 0 (weight weigh files)) none_yet))

  -- For a literal query of 1 to 16384 bytes, in lower case if case is ignored, without inversion, where
  -- the calls of `read` of each file give some of the bytes that are left, the first one all that it asks
  -- for, where a file that is to be decompressed can be so to its end, and nothing has been found yet, two runs of
  -- the workers, in any number of threads and in any order of their steps, into whose queues the same files
  -- have been put, end with the same exit status, and that is 0 or 1.
  pub run_status-any_order :
      (n₁ n₂ : ℕ) (s₁ s₂ : System)
      → 0 < n₁
      → 0 < n₂
      → Reach n₁ s₁
      → Reach n₂ s₂
      → ((i : ℕ) → i < n₁ → s₁.workers i ≡ finished)
      → ((i : ℕ) → i < n₂ → s₂.workers i ≡ finished)
      → ((weigh : FilePath → ℕ) → weight weigh s₁.added ≡ weight weigh s₂.added)
      → (w : World) → w.match_found ≡ false
      → (status : ℕ) × (status ≤ 1)
        × (run_status o view (oldest_first s₁.searched) w ≡ done (some status))
        × (run_status o view (oldest_first s₂.searched) w ≡ done (some status))
  run_status-any_order n₁ n₂ s₁ s₂ some₁ some₂ r₁ r₂ end₁ end₂ same w none_yet =
      let e : weight weigh (oldest_first s₂.searched) ≡ weight weigh (oldest_first s₁.searched) =
        omega (
          arith,
          weight-oldest_first weigh s₁.searched,
          weight-oldest_first weigh s₂.searched,
          all_searched some₁ r₁ end₁ weigh,
          all_searched some₂ r₂ end₂ weigh,
          same weigh,
        ) in
      (
        if ltb 0 (weight weigh (oldest_first s₁.searched)) then 0 else 1,
        ground arith,
        run_status-weight (oldest_first s₁.searched) w none_yet,
        run_status-weight (oldest_first s₂.searched) w none_yet
            ∙ ap (λ k. done (some (if ltb 0 k then 0 else 1))) e,
      )
