-- ===== src/Buffer/File/Steady.antt =====
-- What the search of a file finds does not depend on what has been found before.
use mathlib.Core.Bool.{or-true, or-false}
use the_silver_searcher.Base.{
  ℕ, ◌+◌, ◌≤◌, ◌<◌, ◌≡◌, refl, sym, Bool, true, false, not, ◌&&◌, ◌||◌, Option, none, some, List,
  [], take, length, ◌==◌, if◌then◌else◌, Run, done, Bool-cases, inl, inr, arith, eq→==,
}
use the_silver_searcher.Matcher.Occurrence.{IsFolded}
use the_silver_searcher.Binary.Ends.{is_binary-Returns}
use the_silver_searcher.Zip.{is_zipped}
use the_silver_searcher.Print.{print_init_context}
use the_silver_searcher.Buffer.{World, Searched, skipped, search_buf}
use the_silver_searcher.Buffer.Steady.{Steady, search_buf-Steady, search_stream-Steady}
use the_silver_searcher.Buffer.Stream.{search_stream}
use the_silver_searcher.Buffer.File.{
  Stat, FileView, FileOpts, Ending, ended, is_refused, is_fifo, is_empty_query_file, no_zip,
  search_unzipped, search_contents, filled, first_piece, search_mapped, read_rest, load,
  search_open, search_stat, find_in_file, has_none, cleanup, search_file,
}
use the_silver_searcher.Buffer.File.Read.{Unzips, IsSound, read_loop-all}

-- The same where the program may end; here it goes on.
pub record SteadyEnd (run : World → Run Ending) : Type 0 where
  pub result : Searched
  pub finds : Bool
  pub runs :
      (w : World)
      → (w' : World) × (run w ≡ done (some (result, w')))
        × (w'.match_found ≡ (w.match_found || finds))

ended-SteadyEnd :
    (run : World → Run (Searched × World)) → Steady run → SteadyEnd (λ w. ended (run w))
ended-SteadyEnd run s = record {
  result = s.result;
  finds = s.finds;
  runs = λ w. let (w', e, found) = s.runs w in (w', simp e refl, found);
}

if-SteadyEnd :
    (b : Bool) (r s : World → Run Ending)
    → SteadyEnd r
    → SteadyEnd s
    → SteadyEnd (λ w. if b then r w else s w)
if-SteadyEnd true r s h g = h
if-SteadyEnd false r s h g = g

-- The file is left.
left-SteadyEnd : SteadyEnd (λ w. done (some (skipped, w)))
left-SteadyEnd = record {
  result = skipped;
  finds = false;
  runs = λ w. (w, refl, sym (or-false w.match_found));
}

module _ (o : FileOpts) (f : FileView) (literal : o.buf.literal ≡ true)
    (plain : o.buf.query.invert_match ≡ false) (some_byte : 0 < length o.buf.query.query)
    (short : length o.buf.query.query ≤ 16384)
    (folded : IsFolded o.buf.query.case_insensitive o.buf.query.query
      (length o.buf.query.query)) where
  buf-SteadyEnd : (buf : List ℕ) → SteadyEnd (λ w. ended (search_buf o.buf f.path buf w))
  buf-SteadyEnd buf =
      ended-SteadyEnd (search_buf o.buf f.path buf)
        (search_buf-Steady o.buf f.path literal plain some_byte short folded buf)

  stream-SteadyEnd :
      (lines : List (List ℕ)) → SteadyEnd (λ w. ended (search_stream o.buf f.path lines w))
  stream-SteadyEnd lines =
      ended-SteadyEnd (search_stream o.buf f.path lines)
        (search_stream-Steady o.buf f.path literal plain some_byte short folded lines)

  search_contents-SteadyEnd :
      (position : ℕ) (buf : List ℕ)
      → Unzips o f position buf
      → SteadyEnd (search_contents o f position buf)
  unfolding search_contents search_unzipped
  search_contents-SteadyEnd position buf (inl other) =
      let s = buf-SteadyEnd buf in
      record { result = s.result; finds = s.finds; runs = λ w. simp other (s.runs w) }
  search_contents-SteadyEnd position buf (inr (lines, e)) =
      let zip_type = is_zipped o.have_zlib o.have_lzma buf (length buf) in
      elim (Bool-cases (o.search_zip_files && not (no_zip zip_type))) [
        | inl zipped ↦
            let s = stream-SteadyEnd lines in
            record { result = s.result; finds = s.finds; runs = λ w. simp (zipped, e) (s.runs w) }
        | inr other ↦
            let s = buf-SteadyEnd buf in
            record { result = s.result; finds = s.finds; runs = λ w. simp other (s.runs w) }
      ]

  module _ (f_len : ℕ) (sound : IsSound o f f_len) where
    read_rest-SteadyEnd :
        (n : ℕ) → n ≤ f_len → o.buf.mmap ≡ false → SteadyEnd (read_rest o f f_len n)
    unfolding read_rest
    read_rest-SteadyEnd n le off =
        let s = search_contents-SteadyEnd f_len (take f_len f.contents) (sound.unzips_read off) in
        record {
          result = s.result;
          finds = s.finds;
          runs = λ w.
              simp
                (
                  read_loop-all f.read f_len (f_len + 1) n sound.reads le (omega arith),
                  eq→== f_len f_len refl,
                )
                (s.runs w);
        }

    search_mapped-SteadyEnd :
        (buf : Option (List ℕ))
        → o.buf.mmap ≡ true
        → f.mmap f_len ≡ buf
        → SteadyEnd (search_mapped o f buf)
    unfolding search_mapped
    search_mapped-SteadyEnd none on e = left-SteadyEnd
    search_mapped-SteadyEnd (some buf) on e =
        search_contents-SteadyEnd 0 buf (sound.unzips_mapped buf on e)

    load-SteadyEnd : SteadyEnd (load o f f_len)
    unfolding load
    load-SteadyEnd =
        let n = f.read 0 (first_piece f_len) in
        let (binary, e, _) = is_binary-Returns (filled f n) f_len in
        let le : n ≤ f_len = ground (arith, sound.first) in
        let left : World → Run Ending = λ w. done (some (skipped, w)) in
        elim (Bool-cases o.buf.mmap) [
          | inl on ↦
              let s = search_mapped-SteadyEnd (f.mmap f_len) on refl in
              record { result = s.result; finds = s.finds; runs = λ w. simp on (s.runs w) }
          | inr off ↦ elim (Bool-cases o.buf.search_binary_files) [
            | inl all ↦
                let s = read_rest-SteadyEnd 0 (omega arith) off in
                record {
                  result = s.result;
                  finds = s.finds;
                  runs = λ w. simp (off, all) (s.runs w);
                }
            | inr test ↦
                let s =
                  if-SteadyEnd binary left (read_rest o f f_len n) left-SteadyEnd
                    (read_rest-SteadyEnd n le off) in
                record {
                  result = s.result;
                  finds = s.finds;
                  runs = λ w. simp (off, test, e) (s.runs w);
                }
          ]
        ]

  -- Behind the tests.
  search_open-SteadyEnd : (s : Stat) → IsSound o f s.st_size → SteadyEnd (search_open o f s)
  unfolding search_open
  search_open-SteadyEnd s sound =
      let left : World → Run Ending = λ w. done (some (skipped, w)) in
      let piped : World → Run Ending = λ w. ended (search_stream o.buf f.path f.lines w) in
      let empty : World → Run Ending = λ w. ended (search_buf o.buf f.path [] w) in
      let for_dot : World → Run Ending = λ w. if is_empty_query_file o then empty w else left w in
      if-SteadyEnd (is_fifo s.kind) piped
        (λ w. if s.st_size == 0 then for_dot w else load o f s.st_size w) (stream-SteadyEnd f.lines)
        (if-SteadyEnd (s.st_size == 0) for_dot (load o f s.st_size)
          (if-SteadyEnd (is_empty_query_file o) empty left (buf-SteadyEnd []) left-SteadyEnd)
          (load-SteadyEnd s.st_size sound))

  search_stat-SteadyEnd :
      (s : Option Stat)
      → ((t : Stat) → s ≡ some t → IsSound o f t.st_size)
      → SteadyEnd (search_stat o f s)
  unfolding search_stat
  search_stat-SteadyEnd none sound = left-SteadyEnd
  search_stat-SteadyEnd (some s) sound =
      let t = search_open-SteadyEnd s (sound s refl) in
      if-SteadyEnd (is_refused o (some s)) (λ w. done (some (skipped, w)))
        (λ w. search_open o f s (record w { printer = print_init_context w.printer }))
        left-SteadyEnd
        (record {
          result = t.result;
          finds = t.finds;
          runs = λ w. t.runs (record w { printer = print_init_context w.printer });
        })

  find_in_file-SteadyEnd :
      ((s : Stat) → f.fstat ≡ some s → IsSound o f s.st_size) → SteadyEnd (find_in_file o f)
  unfolding find_in_file
  find_in_file-SteadyEnd sound =
      if-SteadyEnd (is_refused o f.stat || not f.opens) (λ w. done (some (skipped, w)))
        (search_stat o f f.fstat) left-SteadyEnd (search_stat-SteadyEnd f.fstat sound)

  -- The search of any file ends, and what is found is found before or by it, whatever has been found before.
  pub search_file-finds :
      ((s : Stat) → f.fstat ≡ some s → IsSound o f s.st_size)
      → (finds : Bool) × ((w : World)
          → (w' : World) × (search_file o f w ≡ done (some w'))
            × (w'.match_found ≡ (w.match_found || finds)))
  unfolding search_file cleanup
  search_file-finds sound =
      let s = find_in_file-SteadyEnd sound in
      elim (Bool-cases (o.buf.print_nonmatching_files && has_none s.result)) [
        | inl printed ↦ (
          true,
          λ w.
              let (w', e, found) = s.runs w in
              simp (e, printed) (_, refl, sym (or-true w.match_found)),
        )
        | inr other ↦
            (s.finds, λ w. let (w', e, found) = s.runs w in simp (e, other) (w', refl, found))
      ]
