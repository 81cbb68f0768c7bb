-- ===== src/Binary/Text.antt =====
-- A NUL behind plain bytes is binary.
use the_silver_searcher.Base.{
  ℕ, zero, suc, ◌+◌, ◌-◌, ◌≤◌, ◌<◌, ◌≡◌, ◌≢◌, true, false, List, at, done, arith, lt→ltb, ne→==,
  Bool-cases, inl, inr, ℕ_discrete,
}
use the_silver_searcher.Binary.{
  nul, fine, odd_byte, look, judge, binary_loop, has_bom, is_pdf, total_of, is_binary,
}

-- A byte that is neither NUL nor odd: `\a` to `\016`, or one from the space on in ASCII.
abbrev pub IsPlain : ℕ → Type 0
IsPlain c = (c ≢ 0) × (odd_byte c ≡ false)

module _ (buf : List ℕ) (total : ℕ) where
  look-IsPlain : (i : ℕ) → IsPlain (at buf i) → look buf total i ≡ fine i
  unfolding look
  look-IsPlain i (p, q) = rw (ne→== _ _ p, q)

  look-nul : (i : ℕ) → at buf i ≡ 0 → look buf total i ≡ nul
  unfolding look
  look-nul i e = rw e

  binary_loop-nul :
      (fuel i k s : ℕ)
      → total - i < fuel
      → i ≤ k
      → k < total
      → ((j : ℕ) → j < k → IsPlain (at buf j))
      → at buf k ≡ 0
      → binary_loop buf total fuel i s ≡ done true
  unfolding binary_loop judge
  binary_loop-nul zero i k s h le lt plain e = absurd (omega arith)
  binary_loop-nul (suc fuel) i k s h le lt plain e = elim (ℕ_discrete i k) [
    | yes here ↦ rw (lt→ltb i total (omega arith), here, look-nul k e)
    | no before ↦
        rw (lt→ltb i total (omega arith), look-IsPlain i (plain i (omega arith)))
          (binary_loop-nul fuel (i + 1) k s (omega arith) (omega arith) lt plain e)
  ]

-- A buffer with a NUL among its first 512 bytes, and plain bytes before it, is binary.
pub is_binary-nul :
    (buf : List ℕ) (buf_len k : ℕ)
    → k < total_of buf_len
    → ((j : ℕ) → j < k → IsPlain (at buf j))
    → at buf k ≡ 0
    → is_binary buf buf_len ≡ done true
unfolding is_binary
is_binary-nul buf buf_len k lt plain e =
    rw (ne→== buf_len 0 (ground arith), no_bom (ℕ_discrete k 0))
      (elim (Bool-cases (is_pdf buf buf_len)) [
        | inl pdf ↦ rw pdf
        | inr other ↦ rw other (
            binary_loop-nul buf (total_of buf_len) (total_of buf_len + 1) 0 k 0 (omega arith)
              (omega arith) lt plain e)
      ])
  where
    no_bom : Dec (k ≡ 0) → has_bom buf buf_len ≡ false
    no_bom (yes z) = ground (arith, z)
    no_bom (no nz) = ground (arith, plain 0 (omega arith))
