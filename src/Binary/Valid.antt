-- ===== src/Binary/Valid.antt =====
-- Text in ASCII or in the sequences of two and three bytes of UTF-8 is not binary, even with some other bytes in it.
use the_silver_searcher.Base.{
  ℕ, zero, suc, ◌≤◌, ◌<◌, ◌≡◌, ◌⊎◌, refl, List, [], ◌∷◌, ◌++◌, at, length, arith,
}

-- A byte from 128 to 191, which continues a sequence.
abbrev pub Continues : ℕ → Type 0
Continues c = (128 ≤ c) × (c ≤ 191)

-- A text with `n` bytes that stand for no character of text: control codes but those from `\a` to `\016`, bytes that
-- only continue a sequence or start none, and those from 240 on. There is no NUL in it.
pub data IsText : (n : ℕ) → List ℕ → Type 0 where
  empty : IsText 0 []
  code : (n c : ℕ) (t : List ℕ) → 7 ≤ c → c ≤ 14 → IsText n t → IsText n (c ∷ t)
  ascii : (n c : ℕ) (t : List ℕ) → 32 ≤ c → c ≤ 127 → IsText n t → IsText n (c ∷ t)
  two :
      (n c d : ℕ) (t : List ℕ) → 194 ≤ c → c ≤ 223 → Continues d → IsText n t → IsText n (c ∷ d ∷ t)
  three :
      (n c d e : ℕ) (t : List ℕ)
      → 224 ≤ c
      → c ≤ 239
      → Continues d
      → Continues e
      → IsText n t
      → IsText n (c ∷ d ∷ e ∷ t)
  other :
      (n c : ℕ) (t : List ℕ)
      → ((0 < c) × (c < 7)) ⊎ (((14 < c) × (c < 32)) ⊎ (((127 < c) × (c < 194)) ⊎ (239 < c)))
      → IsText n t
      → IsText (suc n) (c ∷ t)

pub at-append : (t rest : List ℕ) (k : ℕ) → k < length t → at (t ++ rest) k ≡ at t k
at-append [] rest k lt = absurd (omega (arith, lt))
at-append (b ∷ t) rest zero lt = refl
at-append (b ∷ t) rest (suc k) lt = at-append t rest k (omega (arith, lt))

-- The byte order mark of UTF-8.
abbrev pub HasMark : (buf : List ℕ) (buf_len : ℕ) → Type 0
HasMark buf buf_len = (3 ≤ buf_len) × (at buf 0 ≡ 239) × (at buf 1 ≡ 187) × (at buf 2 ≡ 191)

abbrev pub StartsAsPdf : (buf : List ℕ) (buf_len : ℕ) → Type 0
StartsAsPdf buf buf_len =
    (5 ≤ buf_len)
    × (at buf 0 ≡ b'%')
    × (at buf 1 ≡ b'P')
    × (at buf 2 ≡ b'D')
    × (at buf 3 ≡ b'F')
    × (at buf 4 ≡ b'-')
