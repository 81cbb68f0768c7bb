-- ===== src/Mode/Examples.antt =====
-- Runs of the choice of a search, and its theorem at an input.
use the_silver_searcher.Base.{◌≡◌, refl, true, false, some, [], ◌∷◌}
use the_silver_searcher.Base.Chars.{isascii, isupper, tolower}
use the_silver_searcher.Base.Bytes.{has_any, has_char}
use the_silver_searcher.Mode.{
  default, insensitive, sensitive, Args, Prepared, is_regex, is_lowercase, query_of, casing_of,
  fold_query, ready, prepare_query, prepare,
}
use the_silver_searcher.Mode.Ready.{IsReady, prepare-IsReady}

-- `ag Ab`, and `ag -i Ab`
abbrev upper : Args
upper = record {
  needs_query = true;
  accepts_query = true;
  argument = some (b'A' ∷ b'b' ∷ []);
  literal = false;
  casing = default;
}

prepare_smart :
    prepare upper ≡ some (record { query = b'A' ∷ b'b' ∷ []; literal = true; casing = sensitive })
unfolding prepare prepare_query query_of ready casing_of is_lowercase is_regex has_any has_char
    isascii isupper
prepare_smart = refl

abbrev folded : Prepared
folded = record { query = b'a' ∷ b'b' ∷ []; literal = true; casing = insensitive }

prepare_folds : prepare (record upper { casing = insensitive }) ≡ some folded
unfolding prepare prepare_query query_of ready casing_of fold_query tolower isupper is_regex has_any
    has_char
prepare_folds = refl

prepare-IsReady_example : IsReady folded
prepare-IsReady_example =
    prepare-IsReady (record upper { casing = insensitive }) folded prepare_folds
