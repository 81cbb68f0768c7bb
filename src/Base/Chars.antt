-- ===== src/Base/Chars.antt =====
-- Bytes, and what the program uses of <ctype.h> in the C locale: a `char` is its byte, 0 to 255.
use the_silver_searcher.Base.{
  ℕ, ◌+◌, ◌-◌, ◌≡◌, ◌⊎◌, Bool, ◌&&◌, ◌||◌, arith, leb, ◌==◌, if◌then◌else◌,
}

unfoldable pub isupper : ℕ → Bool
isupper c = leb b'A' c && leb c b'Z'

unfoldable pub islower : ℕ → Bool
islower c = leb b'a' c && leb c b'z'

unfoldable pub tolower : ℕ → ℕ
unfolding isupper
tolower c = if isupper c then c + 32 else c

unfoldable pub toupper : ℕ → ℕ
unfolding islower
toupper c = if islower c then c - 32 else c

-- Space, and `\t \n \v \f \r`.
unfoldable pub isspace : ℕ → Bool
isspace c = c == b' ' || (leb 9 c && leb c 13)

unfoldable pub isascii : ℕ → Bool
isascii c = leb c 127

-- A byte with a given lower case form is that form, or its upper case form.
pub tolower_cases : (c : ℕ) → (c ≡ tolower (tolower c)) ⊎ (c ≡ toupper (tolower c))
unfolding tolower toupper
tolower_cases c = ground arith

pub tolower-tolower : (c : ℕ) → tolower (tolower c) ≡ tolower c
unfolding tolower
tolower-tolower c = ground arith
