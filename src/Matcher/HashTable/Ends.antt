-- ===== src/Matcher/HashTable/Ends.antt =====
-- The table is made in the end, also of a query that is too long for the search by it.
use the_silver_searcher.Base.{
  ℕ, zero, suc, ◌+◌, ◌-◌, ◌*◌, ◌%◌, ◌≤◌, ◌<◌, refl, Bool, true, false, List, Run, done, Returns,
  arith,
}
use the_silver_searcher.Matcher.HashTable.{hash_of, caps_loop, hash_loop, generate_hash}
use the_silver_searcher.Matcher.HashTable.Filled.{
  filled, filled-update, filled_nothing, put_entry-IsFree,
}

module _ (size : ℕ) (find : List ℕ) (case_sensitive : Bool) (some_cell : 0 < size) where
  abbrev Taken : (before more : ℕ) (t : ℕ → ℕ) → Type 0
  Taken before more t = filled t size ≤ before + more

  hash_of-lt : (i caps_set : ℕ) → hash_of size find i caps_set < size
  unfolding hash_of
  hash_of-lt i caps_set = grind arith

  caps_rest :
      (b : Bool) (rounds : ℕ) (table t : ℕ → ℕ) (again : (ℕ → ℕ) → Run (ℕ → ℕ))
      → filled t size ≤ filled table size + 1
      → Returns (again t) (Taken (filled t size) rounds)
      → Returns
          (elim b [ true ↦ done t | false ↦ again t ])
          (Taken (filled table size) (suc rounds))
  caps_rest true rounds table t again le h = (t, refl, omega arith)
  caps_rest false rounds table t again le (u, e, le') = (u, e, omega arith)

  caps_loop-Taken :
      (i rounds first : ℕ) (table : ℕ → ℕ)
      → filled table size + rounds ≤ size
      → Returns
          (caps_loop size find case_sensitive i rounds first table)
          (Taken (filled table size) rounds)
  unfolding caps_loop
  caps_loop-Taken i zero first table room = (table, refl, omega arith)
  caps_loop-Taken i (suc rounds) first table room =
      let (t, e, (cell, free, same)) =
        put_entry-IsFree size table (hash_of size find i first) (i + 1) (hash_of-lt i first)
          (omega arith) in
      let le : filled t size ≤ filled table size + 1 =
        rw same (filled-update table size cell ((i + 1) % 256)) in
      rw e (
        caps_rest case_sensitive rounds table t
          (caps_loop size find case_sensitive i rounds (first + 1)) le
          (caps_loop-Taken i rounds (first + 1) t (omega arith)))

  hash_loop-Taken :
      (i1 : ℕ) (table : ℕ → ℕ)
      → filled table size + 4 * i1 ≤ size
      → Returns (hash_loop size find case_sensitive i1 table) (Taken (filled table size) (4 * i1))
  unfolding hash_loop
  hash_loop-Taken zero table room = (table, refl, omega arith)
  hash_loop-Taken (suc i) table room =
      let (t, e, le) = caps_loop-Taken i 4 0 table (omega arith) in
      let (u, e', le') = hash_loop-Taken i t (omega arith) in rw (e, e') (u, refl, omega arith)

  pub generate_hash-Returns :
      (f_len : ℕ)
      → 4 * (f_len - 1) ≤ size
      → Returns (generate_hash size find f_len case_sensitive) (λ t. Unit {0})
  unfolding generate_hash
  generate_hash-Returns f_len room =
      let (t, e, le) = hash_loop-Taken (f_len - 1) (λ h. 0) (omega (arith, filled_nothing size)) in
      (t, e, tt)
