-- ===== src/Buffer/File/Read.antt =====
-- The search of a file ends, and the program goes on.
use the_silver_searcher.Base.{
  ℕ, zero, suc, ◌+◌, ◌-◌, ◌≤◌, ◌<◌, ◌≡◌, ◌⊎◌, refl, ap, Bool, true, false, not, ◌&&◌, ◌||◌, Option,
  none, some, List, [], take, length, ◌==◌, if◌then◌else◌, Run, done, Returns, Bool-cases, inl, inr,
  arith, lt→ltb, not_lt→ltb, eq→==, dec_lt,
}
use the_silver_searcher.Matcher.Occurrence.{IsFolded}
use the_silver_searcher.Binary.Ends.{is_binary-Returns}
use the_silver_searcher.Zip.{is_zipped}
use the_silver_searcher.Print.{print_init_context}
use the_silver_searcher.Buffer.{World, Searched, skipped, search_buf}
use the_silver_searcher.Buffer.Outcome.{search_buf-literal}
use the_silver_searcher.Buffer.Stream.{search_stream}
use the_silver_searcher.Buffer.Stream.Count.{search_stream-literal}
use the_silver_searcher.Buffer.File.{
  Stat, FileView, FileOpts, Ending, ended, is_refused, is_fifo, is_empty_query_file, read_loop,
  no_zip, whole, unzip, search_unzipped, search_contents, filled, first_piece, search_mapped,
  read_rest, load, search_open, search_stat, find_in_file, has_none, cleanup, search_file,
}

-- Each call of `read` gives some of the bytes that are left.
abbrev pub Reads : (read : ℕ → ℕ → ℕ) (f_len : ℕ) → Type 0
Reads read f_len =
    (from : ℕ) → from < f_len → (0 < read from f_len) × (from + read from f_len ≤ f_len)

-- A compressed file can be read to its end, if it is to be searched as one.
abbrev pub Unzips : FileOpts → FileView → (position : ℕ) (buf : List ℕ) → Type 0
Unzips o f position buf =
    ((o.search_zip_files && not (no_zip (is_zipped o.have_zlib o.have_lzma buf (length buf))))
      ≡ false)
    ⊎ ((lines : List (List ℕ)) × (unzip f (is_zipped o.have_zlib o.have_lzma buf (length buf))
            position
          ≡ whole lines))

-- What a file has to be like: the calls of `read` give what they have to, the first one all that it asks for, and
-- a compressed one can be read.
pub record IsSound (o : FileOpts) (f : FileView) (f_len : ℕ) : Type 0 where
  pub reads : Reads f.read f_len
  pub first : f.read 0 (first_piece f_len) ≡ first_piece f_len
  pub unzips_mapped :
      (buf : List ℕ) → o.buf.mmap ≡ true → f.mmap f_len ≡ some buf → Unzips o f 0 buf
  pub unzips_read : o.buf.mmap ≡ false → Unzips o f f_len (take f_len f.contents)

pub read_loop-all :
    (read : ℕ → ℕ → ℕ) (f_len fuel bytes_read : ℕ)
    → Reads read f_len
    → bytes_read ≤ f_len
    → f_len - bytes_read < fuel
    → read_loop read f_len fuel bytes_read ≡ done f_len
unfolding read_loop
read_loop-all read f_len zero n reads le enough = absurd (omega (arith, enough))
read_loop-all read f_len (suc fuel) n reads le enough = elim (dec_lt n f_len) [
  | yes lt ↦
      let (pos, fits) = reads n lt in
      rw (lt→ltb n f_len lt)
        (read_loop-all read f_len fuel (n + read n f_len) reads fits (omega (arith, pos, enough)))
  | no end ↦ rw (not_lt→ltb n f_len end) (ap done (omega (arith, end, le)))
]

-- The run returns without the end of the program.
abbrev pub GoesOn {ℓ} : {A : Type ℓ} → Run (Option A) → Type ℓ
GoesOn {A = A} run = (a : A) × (run ≡ done (some a))

if-GoesOn :
    {A : Type 0} (b : Bool) (r s : Run (Option A))
    → GoesOn r
    → GoesOn s
    → GoesOn (if b then r else s)
if-GoesOn true r s h g = h
if-GoesOn false r s h g = g

ended-GoesOn :
    {P : Searched × World → Type 0} (run : Run (Searched × World))
    → Returns run P
    → GoesOn (ended run)
ended-GoesOn run (r, e, _) = rw e (r, refl)

module _ (o : FileOpts) (f : FileView) (literal : o.buf.literal ≡ true)
    (plain : o.buf.query.invert_match ≡ false) (pos : 0 < length o.buf.query.query)
    (short : length o.buf.query.query ≤ 16384)
    (folded : IsFolded o.buf.query.case_insensitive o.buf.query.query
      (length o.buf.query.query)) where
  search_buf-GoesOn : (buf : List ℕ) (w : World) → GoesOn (ended (search_buf o.buf f.path buf w))
  search_buf-GoesOn buf w =
      ended-GoesOn (search_buf o.buf f.path buf w)
        (search_buf-literal o.buf f.path buf w literal plain pos short folded)

  search_stream-GoesOn :
      (lines : List (List ℕ)) (w : World) → GoesOn (ended (search_stream o.buf f.path lines w))
  search_stream-GoesOn lines w =
      ended-GoesOn (search_stream o.buf f.path lines w)
        (search_stream-literal o.buf f.path literal plain pos short folded lines w)

  search_contents-GoesOn :
      (position : ℕ) (buf : List ℕ) (w : World)
      → Unzips o f position buf
      → GoesOn (search_contents o f position buf w)
  unfolding search_contents search_unzipped
  search_contents-GoesOn position buf w (inl other) = simp other (search_buf-GoesOn buf w)
  search_contents-GoesOn position buf w (inr (lines, e)) =
      let zip_type = is_zipped o.have_zlib o.have_lzma buf (length buf) in
      elim (Bool-cases (o.search_zip_files && not (no_zip zip_type))) [
        | inl zipped ↦ simp (zipped, e) (search_stream-GoesOn lines w)
        | inr other ↦ simp other (search_buf-GoesOn buf w)
      ]

  module _ (f_len : ℕ) (sound : IsSound o f f_len) where
    read_rest-GoesOn :
        (n : ℕ) (w : World) → n ≤ f_len → o.buf.mmap ≡ false → GoesOn (read_rest o f f_len n w)
    unfolding read_rest
    read_rest-GoesOn n w le off =
        simp
          (
            read_loop-all f.read f_len (f_len + 1) n sound.reads le (omega arith),
            eq→== f_len f_len refl,
          )
          (search_contents-GoesOn f_len (take f_len f.contents) w (sound.unzips_read off))

    search_mapped-GoesOn :
        (buf : Option (List ℕ)) (w : World)
        → o.buf.mmap ≡ true
        → f.mmap f_len ≡ buf
        → GoesOn (search_mapped o f buf w)
    unfolding search_mapped
    search_mapped-GoesOn none w on e = ((skipped, w), refl)
    search_mapped-GoesOn (some buf) w on e =
        search_contents-GoesOn 0 buf w (sound.unzips_mapped buf on e)

    load-GoesOn : (w : World) → GoesOn (load o f f_len w)
    unfolding load
    load-GoesOn w =
        let n = f.read 0 (first_piece f_len) in
        let (binary, e, _) = is_binary-Returns (filled f n) f_len in
        let le : n ≤ f_len = ground (arith, sound.first) in
        let left : Run Ending = done (some (skipped, w)) in
        elim (Bool-cases o.buf.mmap) [
          | inl on ↦ simp on (search_mapped-GoesOn (f.mmap f_len) w on refl)
          | inr off ↦ elim (Bool-cases o.buf.search_binary_files) [
            | inl all ↦ simp (off, all) (read_rest-GoesOn 0 w (omega arith) off)
            | inr test ↦
                simp (off, test, e)
                  (if-GoesOn binary left (read_rest o f f_len n w) ((skipped, w), refl)
                    (read_rest-GoesOn n w le off))
          ]
        ]

  search_stat-GoesOn :
      (s : Option Stat) (w : World)
      → ((t : Stat) → s ≡ some t → IsSound o f t.st_size)
      → GoesOn (search_stat o f s w)
  unfolding search_stat search_open
  search_stat-GoesOn none w sound = ((skipped, w), refl)
  search_stat-GoesOn (some s) w sound =
      let v = record w { printer = print_init_context w.printer } in
      let left : (u : World) → Run Ending = λ u. done (some (skipped, u)) in
      let piped = ended (search_stream o.buf f.path f.lines v) in
      let empty = ended (search_buf o.buf f.path [] v) in
      let loaded = load o f s.st_size v in
      let sized =
        if s.st_size == 0 then if is_empty_query_file o then empty else left v else loaded in
      let opened = if is_fifo s.kind then piped else sized in
      if-GoesOn (is_refused o (some s)) (left w) opened ((skipped, w), refl)
        (if-GoesOn (is_fifo s.kind) piped sized (search_stream-GoesOn f.lines v) (
          if-GoesOn (s.st_size == 0) (if is_empty_query_file o then empty else left v) loaded
            (if-GoesOn (is_empty_query_file o) empty (left v) (search_buf-GoesOn [] v)
              ((skipped, v), refl))
            (load-GoesOn s.st_size (sound s refl) v)))

  cleanup-GoesOn : (r : Searched × World) → GoesOn (done (cleanup o f (some r)))
  unfolding cleanup
  cleanup-GoesOn (r, w) = elim (Bool-cases (o.buf.print_nonmatching_files && has_none r)) [
    | inl printed ↦ rw printed (_, refl)
    | inr other ↦ rw other (w, refl)
  ]

  -- For a literal query of 1 to 16384 bytes, in lower case if case is ignored, without inversion, the search of a
  -- file ends, and the program goes on, if each call of `read` gives some of the bytes that are left, the first one
  -- all that it asks for, and if the file can be decompressed to its end where it is to be.
  pub search_file-GoesOn :
      (w : World)
      → ((s : Stat) → f.fstat ≡ some s → IsSound o f s.st_size)
      → GoesOn (search_file o f w)
  unfolding search_file find_in_file
  search_file-GoesOn w sound =
      let again = search_stat o f f.fstat w in
      let (r, e) =
        if-GoesOn (is_refused o f.stat || not f.opens) (done (some (skipped, w))) again
          ((skipped, w), refl) (search_stat-GoesOn f.fstat w sound) in
      rw e (cleanup-GoesOn r)
