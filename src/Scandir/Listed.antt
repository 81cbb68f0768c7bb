-- ===== src/Scandir/Listed.antt =====
-- With memory, the entries listed are those that the filter keeps, and the array has room for them.
use mathlib.Core.List.{append-nil, append_assoc}
use the_silver_searcher.Base.{
  ℕ, ◌+◌, ◌*◌, ◌≤◌, ◌<◌, ◌≡◌, refl, sym, Bool, true, List, [], ◌∷◌, ◌++◌, length, length-append,
  leb, if◌then◌else◌, arith, Bool-cases, inl, inr,
}
use the_silver_searcher.Scandir.{Outcome, listed, store, keep, scan, ag_scandir}

module _ {ℓ} {Entry : Type ℓ} (filter : Entry → Bool) where
  pub kept : List Entry → List Entry
  kept [] = []
  kept (e ∷ es) = if filter e then e ∷ kept es else kept es

  -- The array lists the names and has room for them.
  abbrev pub Lists : List Entry → Outcome Entry → Type ℓ
  Lists names o = (room : ℕ) × (o ≡ listed names room) × (length names ≤ room)

  keep-Lists :
      (again : (names : List Entry) (names_len used : ℕ) → Outcome Entry)
      → (names : List Entry) (names_len used : ℕ) (e : Entry) (fin : List Entry) → 0 < names_len
      → length names ≤ names_len
      → ((room used' : ℕ)
          → 0 < room
          → length (names ++ e ∷ []) ≤ room
          → Lists fin (again (names ++ e ∷ []) room used'))
      → Lists fin (keep filter (λ _. true) again names names_len used e)
  unfolding keep store
  keep-Lists again names names_len used e fin pos h ih =
      elim (Bool-cases (leb names_len (length names))) [
        | inl full ↦ rw full (
            ih (names_len * 2) (used + 1 + 1) (omega arith)
              (omega (arith, length-append names (e ∷ []))))
        | inr more ↦
            rw more (ih names_len (used + 1) pos (ground (arith, length-append names (e ∷ []))))
      ]

  scan-Lists :
      (entries names : List Entry) (names_len used : ℕ)
      → 0 < names_len
      → length names ≤ names_len
      → Lists (names ++ kept entries) (scan filter (λ _. true) entries names names_len used)
  unfolding scan kept
  scan-Lists [] names names_len used pos h = rw (append-nil names) (names_len, refl, h)
  scan-Lists (e ∷ es) names names_len used pos h = elim (Bool-cases (filter e)) [
    | inl yes_keep ↦ rw yes_keep (
        keep-Lists (scan filter (λ _. true) es) names names_len used e (names ++ e ∷ kept es) pos h
          (λ room used' pos' h'.
            rw (sym (append_assoc names (e ∷ []) (kept es)))
              (scan-Lists es (names ++ e ∷ []) room used' pos' h')))
    | inr no_keep ↦ rw no_keep (scan-Lists es names names_len used pos h)
  ]

  -- Where the directory can be opened and memory never runs out, the array lists, in the order of the
  -- directory, just the entries that the filter keeps, and it has room for all of them.
  pub ag_scandir-kept :
      (entries : List Entry) → Lists (kept entries) (ag_scandir filter (λ _. true) true entries)
  unfolding ag_scandir
  ag_scandir-kept entries = scan-Lists entries [] 32 1 (omega arith) (omega arith)
