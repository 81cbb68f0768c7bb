-- ===== src/Ignore/Add/Keeps.antt =====
-- Every array of a node stays sorted as patterns are added and files are loaded.
use the_silver_searcher.Base.{
  ℕ, ◌-◌, ◌≡◌, List, length, drop, length-drop, arith, eq→==, ne→==, ℕ_discrete,
}
use the_silver_searcher.Names.Sorted.{IsSorted}
use the_silver_searcher.Ignore.{Ignores}
use the_silver_searcher.Ignore.Add.{
  Kind, extension, slash_regex, invert_regex, regex, slash_name, name, skipped, kind_of, strip_dot,
  trimmed_len, insert_into, add_ignore_pattern,
}
use the_silver_searcher.Ignore.Add.Order.{insert_pattern-IsSorted}

pub record AllSorted (ig : Ignores) : Type 0 where
  pub extensions : IsSorted ig.extensions
  pub names : IsSorted ig.names
  pub slash_names : IsSorted ig.slash_names
  pub regexes : IsSorted ig.regexes
  pub invert_regexes : IsSorted ig.invert_regexes
  pub slash_regexes : IsSorted ig.slash_regexes

insert_into-AllSorted :
    (kind : Kind) (pattern : List ℕ) (ig : Ignores)
    → AllSorted ig
    → AllSorted (insert_into kind pattern (length pattern) ig)
unfolding insert_into
insert_into-AllSorted extension pattern ig s = record {
  extensions = insert_pattern-IsSorted pattern ig.extensions s.extensions;
  names = s.names;
  slash_names = s.slash_names;
  regexes = s.regexes;
  invert_regexes = s.invert_regexes;
  slash_regexes = s.slash_regexes;
}
insert_into-AllSorted slash_regex pattern ig s = record {
  extensions = s.extensions;
  names = s.names;
  slash_names = s.slash_names;
  regexes = s.regexes;
  invert_regexes = s.invert_regexes;
  slash_regexes = insert_pattern-IsSorted pattern ig.slash_regexes s.slash_regexes;
}
insert_into-AllSorted invert_regex pattern ig s = record {
  extensions = s.extensions;
  names = s.names;
  slash_names = s.slash_names;
  regexes = s.regexes;
  invert_regexes = insert_pattern-IsSorted pattern ig.invert_regexes s.invert_regexes;
  slash_regexes = s.slash_regexes;
}
insert_into-AllSorted regex pattern ig s = record {
  extensions = s.extensions;
  names = s.names;
  slash_names = s.slash_names;
  regexes = insert_pattern-IsSorted pattern ig.regexes s.regexes;
  invert_regexes = s.invert_regexes;
  slash_regexes = s.slash_regexes;
}
insert_into-AllSorted slash_name pattern ig s = record {
  extensions = s.extensions;
  names = s.names;
  slash_names = insert_pattern-IsSorted pattern ig.slash_names s.slash_names;
  regexes = s.regexes;
  invert_regexes = s.invert_regexes;
  slash_regexes = s.slash_regexes;
}
insert_into-AllSorted name pattern ig s = record {
  extensions = s.extensions;
  names = insert_pattern-IsSorted pattern ig.names s.names;
  slash_names = s.slash_names;
  regexes = s.regexes;
  invert_regexes = s.invert_regexes;
  slash_regexes = s.slash_regexes;
}

-- A pattern with no white space at its end keeps every array of the node sorted.
pub add_ignore_pattern-AllSorted :
    (ig : Ignores) (pattern : List ℕ)
    → trimmed_len (strip_dot pattern) (length (strip_dot pattern)) ≡ length (strip_dot pattern)
    → AllSorted ig
    → AllSorted (add_ignore_pattern ig pattern)
unfolding add_ignore_pattern
add_ignore_pattern-AllSorted ig pattern trimmed s =
    let p = strip_dot pattern in
    let rest = drop (skipped (kind_of p)) p in
    let n : trimmed_len p (length p) - skipped (kind_of p) ≡ length rest =
      omega (arith, length-drop (skipped (kind_of p)) p, trimmed) in
    elim (ℕ_discrete (trimmed_len p (length p)) 0) [
      | yes e ↦ rw (eq→== _ _ e) s
      | no ne ↦ rw (ne→== _ _ ne, n) (insert_into-AllSorted (kind_of p) rest ig s)
    ]
