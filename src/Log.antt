-- ===== src/Log.antt =====
-- src/log.c: which messages are written, and where.
mod Threshold
mod Examples
use the_silver_searcher.Base.{ℕ, List, [], ◌∷◌, ◌++◌, ltb, if◌then◌else◌}

-- The levels of `enum log_level` that a message may have.
pub data Level : Type 0 where
  debug msg warn err : Level

abbrev pub number : Level → ℕ
number debug = 10
number msg = 20
number warn = 30
number err = 40

-- LOG_LEVEL_NONE
abbrev pub none_at_all : ℕ
none_at_all = 100

abbrev pub prefix : Level → List ℕ
prefix debug = b'D' ∷ b'E' ∷ b'B' ∷ b'U' ∷ b'G' ∷ b':' ∷ b' ' ∷ []
prefix msg = b'M' ∷ b'S' ∷ b'G' ∷ b':' ∷ b' ' ∷ []
prefix warn = b'W' ∷ b'A' ∷ b'R' ∷ b'N' ∷ b':' ∷ b' ' ∷ []
prefix err = b'E' ∷ b'R' ∷ b'R' ∷ b':' ∷ b' ' ∷ []

-- What has been written to `out_fd` and to `stderr`.
pub record Streams : Type 0 where
  pub out : List ℕ
  pub errors : List ℕ

-- An error goes to `stderr`, the rest to where the results go.
unfoldable pub write : Level → List ℕ → Streams → Streams
write err text s = record s { errors = s.errors ++ text }
write debug text s = record s { out = s.out ++ text }
write msg text s = record s { out = s.out ++ text }
write warn text s = record s { out = s.out ++ text }

-- `text` is the message with its arguments.
unfoldable pub vplog : (log_threshold : ℕ) → Level → (text : List ℕ) → Streams → Streams
vplog log_threshold level text s =
    if ltb (number level) log_threshold
    then s
    else write level (prefix level ++ text ++ b'\n' ∷ []) s
