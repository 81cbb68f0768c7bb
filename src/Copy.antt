-- ===== src/Copy.antt =====
-- `strlcpy` of src/util.c, for a C library that lacks it. The array at `dst` is a function from its indices.
pub mod Cut
mod Examples
use the_silver_searcher.Base.{
  ℕ, zero, suc, ◌+◌, ◌-◌, Bool, true, false, List, at, ltb, ◌==◌, if◌then◌else◌, update,
}

-- The array, how many bytes have been copied, and whether the NUL is one of them.
pub record Copied : Type 0 where
  pub dst : ℕ → ℕ
  pub count : ℕ
  pub ended : Bool

-- The loop that copies; `rounds` is what `--n` leaves to do.
unfoldable pub copy_loop : (src : List ℕ) (rounds i : ℕ) (dst : ℕ → ℕ) → Copied
copy_loop src zero i dst = record { dst = dst; count = i; ended = false }
copy_loop src (suc rounds) i dst =
    let copied = update dst i (at src i) in
    let rest = copy_loop src rounds (i + 1) copied in
    if at src i == 0 then record { dst = copied; count = i + 1; ended = true } else rest

-- The loop over the rest of `src`: how far `s` has come, behind the NUL.
unfoldable pub skip_loop : (src : List ℕ) (rounds i : ℕ) → ℕ
skip_loop src zero i = i + 1
skip_loop src (suc rounds) i =
    let rest = skip_loop src rounds (i + 1) in if at src i == 0 then i + 1 else rest

-- `len` is the length of `src`. The array, and the length that is returned.
unfoldable pub strlcpy : (dst : ℕ → ℕ) (src : List ℕ) (len size : ℕ) → (ℕ → ℕ) × ℕ
strlcpy dst src len size =
    let c = copy_loop src (size - 1) 0 dst in
    let closed = if size == 0 then c.dst else update c.dst c.count 0 in
    if c.ended then (c.dst, c.count - 1) else (closed, skip_loop src (len - c.count) c.count - 1)
