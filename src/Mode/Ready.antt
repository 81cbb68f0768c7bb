-- ===== src/Mode/Ready.antt =====
-- What is prepared is what a search takes for granted.
use mathlib.Core.Path.{subst}
use the_silver_searcher.Base.{
  ℕ, zero, suc, ◌<◌, ◌≡◌, refl, ap, ◌⊎◌, inl, inr, Bool, true, false, ◌||◌, not, Option, none, some,
  List, [], ◌∷◌, length, Bool-cases, ne→==, arith,
}
use the_silver_searcher.Base.Chars.{tolower-tolower}
use the_silver_searcher.Matcher.Occurrence.{IsFolded}
use the_silver_searcher.Mode.{
  Casing, default, sensitive, insensitive, smart, Args, Prepared, is_regex, is_lowercase,
  is_insensitive, query_of, casing_of, fold_query, ready, prepare_query, prepare,
}

-- A query that is not empty, with the case decided; one for a literal search is in lower case if case is
-- ignored.
pub record IsReady (p : Prepared) : Type 0 where
  pub some_byte : 0 < length p.query
  pub decided : (p.casing ≡ sensitive) ⊎ (p.casing ≡ insensitive)
  pub folded : p.literal ≡ true → IsFolded (is_insensitive p.casing) p.query (length p.query)

length-fold_query : (s : List ℕ) → length (fold_query s) ≡ length s
unfolding fold_query
length-fold_query [] = refl
length-fold_query (c ∷ s) = ap suc (length-fold_query s)

fold_query-IsFolded : (s : List ℕ) → IsFolded true (fold_query s) (length (fold_query s))
unfolding fold_query
fold_query-IsFolded [] t lt = absurd (omega arith)
fold_query-IsFolded (c ∷ s) zero lt = tolower-tolower c
fold_query-IsFolded (c ∷ s) (suc t) lt = fold_query-IsFolded s t (omega arith)

casing_of-decided :
    (c : Casing) (query : List ℕ)
    → (casing_of c query ≡ sensitive) ⊎ (casing_of c query ≡ insensitive)
unfolding casing_of
casing_of-decided sensitive query = inl refl
casing_of-decided insensitive query = inr refl
casing_of-decided default query = elim (Bool-cases (is_lowercase query)) [
  | inl e ↦ rw e (inr refl)
  | inr e ↦ rw e (inl refl)
]
casing_of-decided smart query = elim (Bool-cases (is_lowercase query)) [
  | inl e ↦ rw e (inr refl)
  | inr e ↦ rw e (inl refl)
]

ready-IsReady :
    (literal : Bool) (c : Casing) (query : List ℕ)
    → 0 < length query
    → (c ≡ sensitive) ⊎ (c ≡ insensitive)
    → IsReady (ready literal c query)
unfolding ready
ready-IsReady true insensitive query pos d = record {
  some_byte = omega (arith, length-fold_query query, pos);
  decided = d;
  folded = λ l. fold_query-IsFolded query;
}
ready-IsReady false insensitive query pos d = record {
  some_byte = pos;
  decided = d;
  folded = λ l. absurd (cc);
}
ready-IsReady true sensitive query pos d = record {
  some_byte = pos;
  decided = d;
  folded = λ l t lt. refl;
}
ready-IsReady false sensitive query pos d = record {
  some_byte = pos;
  decided = d;
  folded = λ l. absurd (cc);
}
ready-IsReady literal default query pos (inl e) = cc
ready-IsReady literal default query pos (inr e) = cc
ready-IsReady literal smart query pos (inl e) = cc
ready-IsReady literal smart query pos (inr e) = cc

prepare_query-ready :
    (a : Args) (c : ℕ) (s : List ℕ)
    → prepare_query a (c ∷ s)
      ≡ some (ready (a.literal || not (is_regex (c ∷ s))) (casing_of a.casing (c ∷ s)) (c ∷ s))
unfolding prepare_query
prepare_query-ready a c s = rw (ne→== (suc (length s)) 0 (λ z. absurd (omega arith))) refl

prepare_query-nil : (a : Args) → prepare_query a [] ≡ none
unfolding prepare_query
prepare_query-nil a = refl

prepare_query-IsReady :
    (a : Args) (query : List ℕ) (p : Prepared) → prepare_query a query ≡ some p → IsReady p
prepare_query-IsReady a [] p e = cc (e, prepare_query-nil a)
prepare_query-IsReady a (c ∷ s) p e = subst IsReady (cc (e, prepare_query-ready a c s)) (
    ready-IsReady (a.literal || not (is_regex (c ∷ s))) (casing_of a.casing (c ∷ s)) (c ∷ s)
      (omega arith) (casing_of-decided a.casing (c ∷ s)))

-- Whatever the arguments, if the program goes on to search, the query is not empty, the case is decided, and
-- a query for a literal search is in lower case if case is ignored, as the search takes for granted.
pub prepare-IsReady : (a : Args) (p : Prepared) → prepare a ≡ some p → IsReady p
unfolding prepare
prepare-IsReady a p e = by_query (query_of a) e
  where
    by_query :
        (q : Option (List ℕ))
        → (elim q [ none ↦ none | some query ↦ prepare_query a query ]) ≡ some p
        → IsReady p
    by_query none h = cc
    by_query (some query) h = prepare_query-IsReady a query p h
