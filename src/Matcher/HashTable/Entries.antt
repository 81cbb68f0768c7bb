-- ===== src/Matcher/HashTable/Entries.antt =====
-- Every pair of bytes of the query, in every spelling that the search may meet, has its entry in the table,
-- and no entry of an earlier pair stands before it on the way.
use the_silver_searcher.Base.{
  ℕ, zero, suc, ◌+◌, ◌-◌, ◌*◌, ◌%◌, ◌≤◌, ◌<◌, ◌≡◌, ◌≢◌, refl, ◌∙◌, Bool, true, false, List, Run,
  done, Returns, arith, ℕ_discrete,
}
use the_silver_searcher.Matcher.HashTable.{put_entry, hash_of, caps_loop, hash_loop, generate_hash}
use the_silver_searcher.Matcher.HashTable.Probe.{walk}
use the_silver_searcher.Matcher.HashTable.Filled.{
  filled, filled-update, filled_nothing, put_entry-IsFree,
}

module _ (size : ℕ) where
  -- The probe from `h` comes to the entry, and passes none that is smaller, nor a free cell.
  pub record Holds (table : ℕ → ℕ) (h entry : ℕ) : Type 0 where
    pub moves : ℕ
    pub there : table (walk size moves h) ≡ entry
    pub before : (k : ℕ) → k < moves → entry ≤ table (walk size k h)

  -- The table has got at most `more` entries, each from `low` to `high`, and kept its own.
  pub record Grown (table : ℕ → ℕ) (more low high : ℕ) (t : ℕ → ℕ) : Type 0 where
    pub kept : (h : ℕ) → table h ≢ 0 → t h ≡ table h
    pub room : filled t size ≤ filled table size + more
    pub lowest : (h : ℕ) → t h ≢ 0 → low ≤ t h
    pub highest : (h : ℕ) → t h ≤ high

  -- What a table is before entries are put in.
  pub record Fits (table : ℕ → ℕ) (low high : ℕ) : Type 0 where
    pub lowest : (h : ℕ) → table h ≢ 0 → low ≤ table h
    pub highest : (h : ℕ) → table h ≤ high

  Holds-kept :
      (table t : ℕ → ℕ) (h entry : ℕ)
      → 0 < entry
      → ((h : ℕ) → table h ≢ 0 → t h ≡ table h)
      → Holds table h entry
      → Holds t h entry
  Holds-kept table t h entry pos kept v = record {
    moves = v.moves;
    there = kept (walk size v.moves h) (ground (arith, v.there)) ∙ v.there;
    before = λ k below. ground (arith, v.before k below, kept (walk size k h));
  }

  put_entry-Holds :
      (table : ℕ → ℕ) (h i high : ℕ)
      → h < size
      → filled table size < size
      → i < high
      → high < 256
      → Fits table (i + 1) high
      → Returns
          (put_entry size table h (i + 1))
          (λ t. Holds t h (i + 1) × Grown table 1 (i + 1) high t)
  put_entry-Holds table h i high lt room below byte ok =
      let (t, e, (cell, free, same)) = put_entry-IsFree size table h (i + 1) lt room in
      (
        t,
        e,
        rw same (
            (
              record {
                moves = free.moves;
                there = ground (arith, free.reached);
                before = λ k under.
                    ground (arith, free.taken k under, free.free, ok.lowest (walk size k h));
              },
              record {
                kept = λ j ne. ground (arith, free.free);
                room = filled-update table size cell ((i + 1) % 256);
                lowest = λ j ne. ground (arith, ok.lowest j);
                highest = λ j. ground (arith, ok.highest j);
              },
            )),
      )

  module _ (find : List ℕ) (case_sensitive : Bool) (high : ℕ) (byte : high < 256)
      (some_cell : 0 < size) where
    hash_of-lt : (i caps_set : ℕ) → hash_of size find i caps_set < size
    unfolding hash_of
    hash_of-lt i caps_set = grind arith

    -- The spellings that are put in.
    abbrev pub IsSpelled : (first rounds c : ℕ) → Type 0
    IsSpelled first rounds c =
        (first ≤ c) × (c < first + rounds) × (case_sensitive ≡ true → c ≡ first)

    abbrev Spelled : (i first rounds : ℕ) (table t : ℕ → ℕ) → Type 0
    Spelled i first rounds table t =
        ((c : ℕ) → IsSpelled first rounds c → Holds t (hash_of size find i c) (i + 1))
        × Grown table rounds (i + 1) high t

    -- Behind the first entry: the rest of the spellings, or none if case matters.
    caps_rest :
        (b : Bool) (i rounds first : ℕ) (table t : ℕ → ℕ) (again : (ℕ → ℕ) → Run (ℕ → ℕ))
        → case_sensitive ≡ b
        → Holds t (hash_of size find i first) (i + 1)
        → Grown table 1 (i + 1) high t
        → (b ≡ false → Returns (again t) (Spelled i (first + 1) rounds t))
        → Returns (elim b [ true ↦ done t | false ↦ again t ]) (Spelled i first (suc rounds) table)
    caps_rest true i rounds first table t again e holds g h = (
      t,
      refl,
      (
        (λ c k. rw (k.2 e) holds),
        record {
          kept = g.kept;
          room = omega (arith, g.room);
          lowest = g.lowest;
          highest = g.highest;
        },
      ),
    )
    caps_rest false i rounds first table t again e holds g h =
        let (u, e', (all, g')) = h refl in
        (
          u,
          e',
          (
            (λ c k. elim (ℕ_discrete c first) [
              | yes here ↦
                  rw here
                    (Holds-kept t u (hash_of size find i first) (i + 1) (omega arith) g'.kept holds)
              | no later ↦ all c (omega (arith, k.0), omega (arith, k.1), λ cs. cc)
            ]),
            record {
              kept = λ j ne. ground (arith, g.kept j, g'.kept j);
              room = omega (arith, g.room, g'.room);
              lowest = g'.lowest;
              highest = g'.highest;
            },
          ),
        )

    caps_loop-Spelled :
        (i rounds first : ℕ) (table : ℕ → ℕ)
        → filled table size + rounds ≤ size
        → i < high
        → Fits table (i + 1) high
        → Returns
            (caps_loop size find case_sensitive i rounds first table)
            (Spelled i first rounds table)
    unfolding caps_loop
    caps_loop-Spelled i zero first table room below ok = (
      table,
      refl,
      (
        (λ c k. absurd (omega (arith, k.0, k.1))),
        record {
          kept = λ h ne. refl;
          room = omega arith;
          lowest = ok.lowest;
          highest = ok.highest;
        },
      ),
    )
    caps_loop-Spelled i (suc rounds) first table room below ok =
        let (t, e, (holds, g)) =
          put_entry-Holds table (hash_of size find i first) i high (hash_of-lt i first)
            (omega arith) below byte ok in
        rw e (
          caps_rest case_sensitive i rounds first table t
            (caps_loop size find case_sensitive i rounds (first + 1)) refl holds g
            (λ b.
              caps_loop-Spelled i rounds (first + 1) t (omega (arith, g.room)) below
                (record { lowest = g.lowest; highest = g.highest })))

    -- Every pair from the first one to before `i1` is in the table.
    abbrev pub Hashed : (i1 : ℕ) (t : ℕ → ℕ) → Type 0
    Hashed i1 t = (i c : ℕ) → i < i1 → IsSpelled 0 4 c → Holds t (hash_of size find i c) (i + 1)

    hash_loop-Hashed :
        (i1 : ℕ) (table : ℕ → ℕ)
        → filled table size + 4 * i1 ≤ size
        → i1 ≤ high
        → Fits table (i1 + 1) high
        → Returns
            (hash_loop size find case_sensitive i1 table)
            (λ t. Hashed i1 t × Grown table (4 * i1) 1 high t)
    unfolding hash_loop
    hash_loop-Hashed zero table room below ok = (
      table,
      refl,
      (
        (λ i c lt. absurd (omega arith)),
        record {
          kept = λ h ne. refl;
          room = omega arith;
          lowest = λ h ne. omega (arith, ok.lowest h ne);
          highest = ok.highest;
        },
      ),
    )
    hash_loop-Hashed (suc i) table room below ok =
        let (t, e, (all, g)) =
          caps_loop-Spelled i 4 0 table (omega arith) (omega arith)
            (record { lowest = λ h ne. omega (arith, ok.lowest h ne); highest = ok.highest }) in
        let (u, e', (more, g')) =
          hash_loop-Hashed i t (omega (arith, g.room)) (omega arith)
            (record { lowest = g.lowest; highest = g.highest }) in
        rw (e, e')
          (
            u,
            refl,
            (
              (λ j c lt k. elim (ℕ_discrete j i) [
                | yes here ↦
                    rw here (
                      Holds-kept t u (hash_of size find i c) (i + 1) (omega arith) g'.kept
                        (all c k))
                | no before ↦ more j c (omega arith) k
              ]),
              record {
                kept = λ j ne. ground (arith, g.kept j, g'.kept j);
                room = omega (arith, g.room, g'.room);
                lowest = g'.lowest;
                highest = g'.highest;
              },
            ),
          )

    -- The table of a query whose pairs fit in it: their entries, none above the last one.
    pub generate_hash-Hashed :
        (f_len : ℕ)
        → f_len - 1 ≤ high
        → 4 * (f_len - 1) ≤ size
        → Returns
            (generate_hash size find f_len case_sensitive)
            (λ t. Hashed (f_len - 1) t × ((h : ℕ) → t h ≤ high) × (filled t size ≤ 4 * (f_len - 1)))
    unfolding generate_hash
    generate_hash-Hashed f_len below room =
        let (t, e, (all, g)) =
          hash_loop-Hashed (f_len - 1) (λ h. 0) (omega (arith, filled_nothing size)) below
            (record { lowest = λ h ne. absurd (ne refl); highest = λ h. omega arith }) in
        (t, e, (all, g.highest, omega (arith, g.room, filled_nothing size)))
