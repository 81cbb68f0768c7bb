-- ===== src/Options/Settled.antt =====
-- What the rules bring about, whatever the options.
use the_silver_searcher.Base.{◌<◌, ◌≡◌, ◌⊎◌, true, false, ◌||◌, arith}
use the_silver_searcher.Print.{PathPrint}
use the_silver_searcher.Options.{Settings, Flags, apply_flags, settle_output}

-- The settings `t` that a search goes by, made of `s`.
pub record IsSettled (s t : Settings) : Type 0 where
  pub around : 0 < s.context → (t.before ≡ s.context) × (t.after ≡ s.context)
  pub for_tools : (s.ackmate || s.vimgrep) ≡ true → (t.color ≡ false) × (t.search_stream ≡ false)
  pub for_vim : s.vimgrep ≡ true → (t.print_path ≡ PathPrint.nothing) × (t.print_break ≡ false)
  pub stream :
      t.search_stream ≡ true
      → (t.print_path ≡ PathPrint.nothing)
        × (t.print_break ≡ false)
        × ((t.print_line_numbers ≡ 0) ⊎ (t.print_line_numbers ≡ 2))
        × (s.search_stream ≡ true)
        × (s.parallel ≡ false)

-- Whatever the options, --context sets both sides, AckMate and vim get no colours and no stream, vim no heading
-- and no breaks, and a stream is left only without --parallel, with no heading, no breaks and only the line
-- numbers that are asked for.
pub settle_output-IsSettled : (s : Settings) → IsSettled s (settle_output s)
unfolding settle_output
settle_output-IsSettled s = record {
  around = λ pos. ground arith;
  for_tools = λ h. ground arith;
  for_vim = λ h. ground arith;
  stream = λ h. ground arith;
}

-- What the flags ask for is so behind the rules for them.
pub record IsObeyed (f : Flags) (t : Settings) : Type 0 where
  pub count : f.count ≡ true → (t.print_count ≡ true) × (t.print_filename_only ≡ true)
  pub inverts : f.inverts ≡ true → (t.invert_match ≡ true) × (t.color ≡ false)
  pub everything :
      (f.all_types || f.unrestricted) ≡ true
      → (t.search_all_files ≡ true) × (t.search_binary_files ≡ true)
  pub lists :
      (f.files_with_matches || f.files_without_matches) ≡ true → t.print_path ≡ PathPrint.top
  pub quiet :
      (f.nofilename || f.stats_only) ≡ true
      → (f.files_with_matches || f.files_without_matches) ≡ false
      → t.print_path ≡ PathPrint.nothing
  pub without_query : (f.files_with_matches || f.lists_files) ≡ true → t.needs_query ≡ false

-- Behind the rules for the flags each flag has what it asks for, whatever the others: counts, inversion without
-- colours, all files, the heading for lists of files, no paths where nothing but the statistics or no names are
-- asked for and no list, and a query that may be left out.
apply_flags-IsObeyed : (f : Flags) (s : Settings) → IsObeyed f (apply_flags f s)
unfolding apply_flags
apply_flags-IsObeyed f s = record {
  count = λ h. ground arith;
  inverts = λ h. ground arith;
  everything = λ h. ground arith;
  lists = λ h. ground arith;
  quiet = λ h g. ground arith;
  without_query = λ h. ground arith;
}
