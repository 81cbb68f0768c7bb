-- ===== src/Scandir.antt =====
-- src/scandir.c: the entries of a directory that a filter keeps.
pub mod Listed
mod Examples
use the_silver_searcher.Base.{
  ℕ, ◌+◌, ◌*◌, Bool, true, false, List, [], ◌∷◌, ◌++◌, length, leb, if◌then◌else◌,
}

-- What is returned: the array and its room, or -1, with the copies of entries that are never freed.
pub data Outcome {ℓ} (Entry : Type ℓ) : Type ℓ where
  listed : (names : List Entry) (names_len : ℕ) → Outcome Entry
  failed : (leaked : List Entry) → Outcome Entry

-- `filter` is the callback with its baton; `memory n` says whether the allocation behind `n` others succeeds.
module _ {ℓ} {Entry : Type ℓ} (filter : Entry → Bool) (memory : ℕ → Bool) where
  -- The copy of an entry is made and stored.
  unfoldable pub store :
      (again : (names : List Entry) (names_len used : ℕ) → Outcome Entry)
      → (names : List Entry) (names_len used : ℕ) → Entry
      → Outcome Entry
  store again names names_len used entry =
      if memory used then again (names ++ entry ∷ []) names_len (used + 1) else failed []

  -- An entry that the filter keeps; when the larger array cannot be had, `names` is NULL at `fail`.
  unfoldable pub keep :
      (again : (names : List Entry) (names_len used : ℕ) → Outcome Entry)
      → (names : List Entry) (names_len used : ℕ) → Entry
      → Outcome Entry
  keep again names names_len used entry =
      if leb names_len (length names)
      then if memory used then store again names (names_len * 2) (used + 1) entry else failed names
      else store again names names_len used entry

  unfoldable pub scan : List Entry → (names : List Entry) (names_len used : ℕ) → Outcome Entry
  scan [] names names_len used = listed names names_len
  scan (entry ∷ entries) names names_len used =
      let again = scan entries in
      if filter entry then keep again names names_len used entry else again names names_len used

  -- `entries` is what `readdir` gives of the directory, if `opendir` opens it.
  unfoldable pub ag_scandir : (opened : Bool) → List Entry → Outcome Entry
  ag_scandir opened entries =
      if opened then if memory 0 then scan entries [] 32 1 else failed [] else failed []
