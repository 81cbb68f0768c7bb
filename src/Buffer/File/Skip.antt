-- ===== src/Buffer/File/Skip.antt =====
-- Files that are not searched, and those that are printed because they have no match.
use mathlib.Core.Bool.{or-true, or-false}
use the_silver_searcher.Base.{
  ℕ, zero, suc, ◌≤◌, ◌<◌, ◌≡◌, ◌⊎◌, refl, sym, ap, ◌∙◌, true, false, not, ◌&&◌, ◌||◌, Option, none,
  some, length, ◌==◌, done, Returns, Bool-cases, inl, inr, arith, ne→==,
}
use the_silver_searcher.Search.{Match}
use the_silver_searcher.Matcher.Occurrence.{IsFolded}
use the_silver_searcher.Binary.{is_binary}
use the_silver_searcher.Zip.{is_zipped}
use the_silver_searcher.Print.{Printer, print_init_context, print_path}
use the_silver_searcher.Buffer.{World, Searched, skipped, matched, is_shown, search_buf}
use the_silver_searcher.Buffer.Outcome.{
  AreScanned, Outcome, is_left, is_searched, search_buf-literal,
}
use the_silver_searcher.Buffer.File.{
  Kind, Stat, FileView, FileOpts, ended, is_refused, is_fifo, no_zip, search_mapped,
  search_contents, load, search_open, search_stat, find_in_file, cleanup, search_file,
}

-- What `stat` or `fstat` shows of a file that is not to be searched: nothing, that the output goes to it, or that it
-- is neither a regular file nor a pipe. The inode 0 stands for an output that is no file.
pub data IsUnsuited (stdout_inode : ℕ) : Option Stat → Type 0 where
  no_status : IsUnsuited stdout_inode none
  is_output :
      (s : Stat) → 0 < stdout_inode → s.st_ino ≡ stdout_inode → IsUnsuited stdout_inode (some s)
  is_special : (s : Stat) → s.kind ≡ Kind.other → IsUnsuited stdout_inode (some s)

IsUnsuited-refused :
    (o : FileOpts) (s : Option Stat) → IsUnsuited o.stdout_inode s → is_refused o s ≡ true
unfolding is_refused
IsUnsuited-refused o _ no_status = refl
IsUnsuited-refused o _ (is_output s some_inode e) =
    let some_output : (o.stdout_inode == 0) ≡ false = ground (arith, some_inode) in
    let same : (o.stdout_inode == s.st_ino) ≡ true = ground (arith, e) in
    simp (some_output, same) refl
IsUnsuited-refused o _ (is_special s e) = simp e (or-true _)

module _ (o : FileOpts) (f : FileView) (w : World) where
  cleanup-skipped : (u : World) → cleanup o f (some (skipped, u)) ≡ some u
  unfolding cleanup
  cleanup-skipped u = elim (Bool-cases o.buf.print_nonmatching_files) [
    | inl on ↦ simp (on) refl
    | inr off ↦ simp (off) refl
  ]

  search_stat-skipped :
      (s : Option Stat) → is_refused o s ≡ true → search_stat o f s w ≡ done (some (skipped, w))
  unfolding search_stat
  search_stat-skipped none refused = refl
  search_stat-skipped (some s) refused = rw refused refl

  search_file-found :
      (is_refused o f.stat || (not f.opens || is_refused o f.fstat)) ≡ true
      → search_file o f w ≡ done (some w)
  unfolding search_file find_in_file
  search_file-found refused = elim (Bool-cases (is_refused o f.stat || not f.opens)) [
    | inl before ↦ rw before (ap done (cleanup-skipped w))
    | inr opened ↦
        rw (opened, search_stat-skipped f.fstat (ground (arith, refused, opened)))
          (ap done (cleanup-skipped w))
  ]

  -- A file changes nothing and is not printed, though files without a match are asked for, if before it is
  -- opened or then it has no status, is where the output goes or is neither a regular file nor a pipe, or if it
  -- cannot be opened.
  pub search_file-refused :
      IsUnsuited o.stdout_inode f.stat ⊎ ((f.opens ≡ false) ⊎ IsUnsuited o.stdout_inode f.fstat)
      → search_file o f w ≡ done (some w)
  search_file-refused (inl u) = search_file-found (ground (arith, IsUnsuited-refused o f.stat u))
  search_file-refused (inr (inl closed)) = search_file-found (ground (arith, closed))
  search_file-refused (inr (inr u)) =
      search_file-found (ground (arith, IsUnsuited-refused o f.fstat u))

  -- A regular file that is mapped and is not searched as a compressed one.
  pub record IsMapped (s : Stat) : Type 0 where
    pub accepted : is_refused o f.stat ≡ false
    pub opened : f.opens ≡ true
    pub status : f.fstat ≡ some s
    pub same : is_refused o (some s) ≡ false
    pub is_regular : is_fifo s.kind ≡ false
    pub filled : (s.st_size == 0) ≡ false
    pub mapped : o.buf.mmap ≡ true
    pub maps : f.mmap s.st_size ≡ some f.contents
    pub unzipped :
        (o.search_zip_files
          && not (no_zip (is_zipped o.have_zlib o.have_lzma f.contents (length f.contents))))
        ≡ false

  find_in_file-IsMapped :
      (s : Stat)
      → IsMapped s
      → find_in_file o f w
        ≡ ended (
            search_buf o.buf f.path f.contents
              (record w { printer = print_init_context w.printer }))
  unfolding find_in_file search_stat search_open load search_mapped search_contents
  find_in_file-IsMapped s v =
      simp
        (
          v.accepted, v.opened, v.status, v.same, v.is_regular, v.filled, v.mapped, v.maps,
          v.unzipped,
        )
        refl

  -- Which files are listed where those without a match are asked for: `n` matches are in the file.
  pub record Listed (n : ℕ) (w' : World) : Type 0 where
    pub found : w'.match_found ≡ (w.match_found || n == 0)
    pub silent : 0 < n → w'.printer.out ≡ w.printer.out
    pub written :
        n ≡ 0
        → (p : Printer) × (p.out ≡ w.printer.out)
          × (w'.printer ≡ print_path o.buf.print f.path o.buf.print.path_sep p)

  cleanup-Listed :
      (n : ℕ) (u : World)
      → o.buf.print_nonmatching_files ≡ true
      → u.match_found ≡ w.match_found
      → u.printer.out ≡ w.printer.out
      → (w' : World) × (cleanup o f (some (matched n, u)) ≡ some w') × Listed n w'
  unfolding cleanup
  cleanup-Listed zero u on found out = simp (on) (
    _,
    refl,
    record {
      found = sym (or-true w.match_found);
      silent = λ pos. absurd (omega (arith, pos));
      written = λ e. (u.printer, out, refl);
    },
  )
  cleanup-Listed (suc n) u on found out =
      let other : (suc n == 0) ≡ false = ne→== (suc n) 0 (λ e. absurd (omega (arith, e))) in
      simp (on, other)
        (
          u,
          refl,
          record {
            found = found ∙ sym (ap (λ b. w.match_found || b) other ∙ or-false w.match_found);
            silent = λ pos. out;
            written = λ e. absurd (omega (arith, e));
          },
        )

  -- What is made of a file that is searched: it is binary, or it has the matches `ms`.
  pub data Result : World → Type 0 where
    is_binary_file :
        (w' : World)
        → is_binary f.contents (length f.contents) ≡ done true
        → w'.match_found ≡ w.match_found
        → w'.printer.out ≡ w.printer.out
        → Result w'
    has_matches :
        (n : ℕ) (matches : ℕ → Match) (w' : World)
        → AreScanned o.buf f.contents (n, matches)
        → Listed n w'
        → Result w'

  Outcome-Result :
      (r : Searched) (u : World)
      → o.buf.print_nonmatching_files ≡ true
      → o.buf.print.search_stream ≡ false
      → Outcome o.buf f.path f.contents
          (record w { printer = print_init_context w.printer })
          (AreScanned o.buf f.contents)
          r
          u
      → (w' : World) × (cleanup o f (some (r, u)) ≡ some w') × Result w'
  unfolding print_init_context
  Outcome-Result _ _ on file (is_left stream test mmap binary) = (
    _,
    cleanup-skipped (record w { printer = print_init_context w.printer }),
    is_binary_file (record w { printer = print_init_context w.printer }) binary refl refl,
  )
  Outcome-Result _ _ on file (is_searched n matches u scanned reported) =
      let hidden : is_shown o.buf n ≡ false = simp (on) refl in
      let no_stream : (o.buf.print.search_stream && o.buf.passthrough) ≡ false = simp (file) refl in
      let (w', e, listed) =
        cleanup-Listed n u on
          (reported.found ∙ ap (λ b. w.match_found || b) hidden ∙ or-false w.match_found)
          (reported.silent hidden no_stream) in
      (w', e, has_matches n matches w' scanned listed)

  -- Where files without a match are asked for, a mapped file is searched, for a literal query of 1 to 16384
  -- bytes, in lower case if case is ignored, without inversion and with no stream searched. It is left as
  -- binary, and nothing is written, or its path is printed and `match_found` is set exactly if it has no match.
  pub search_file-Result :
      (s : Stat)
      → IsMapped s
      → o.buf.print_nonmatching_files ≡ true
      → o.buf.print.search_stream ≡ false
      → o.buf.literal ≡ true
      → o.buf.query.invert_match ≡ false
      → 0 < length o.buf.query.query
      → length o.buf.query.query ≤ 16384
      → IsFolded o.buf.query.case_insensitive o.buf.query.query (length o.buf.query.query)
      → Returns (search_file o f w) (λ r. (w' : World) × (r ≡ some w') × Result w')
  unfolding search_file
  search_file-Result s v on file literal plain pos short folded =
      let new = record w { printer = print_init_context w.printer } in
      let ((r, u), e, outcome) =
        search_buf-literal o.buf f.path f.contents new literal plain pos short folded in
      let (w', e', result) = Outcome-Result r u on file outcome in
      simp (find_in_file-IsMapped s v, e) (cleanup o f (some (r, u)), refl, (w', e', result))
