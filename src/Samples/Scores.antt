-- ===== src/Samples/Scores.antt =====
-- Scores as hundredths, with one value that is not comparable.
use atlas_of_us.Prelude.{ℕ, ◌<◌, Ordering, ◌≡◌, ◌≢◌, ◌⊎◌, inl, inr, Option, none, some, arith}
use Prim.Native.Nat.{compare}
use atlas_of_us.Floats.{Floats}

abbrev pub compare_scores : Option ℕ → Option ℕ → Option Ordering
compare_scores none _ = none
compare_scores (some a) none = none
compare_scores (some a) (some b) = some (compare a b)

pub compare_scores_lt : (a b : ℕ) → a < b → compare_scores (some a) (some b) ≡ some Ordering.lt
compare_scores_lt a b h = ground arith

pub not_below :
    (x a b : Option ℕ)
    → compare_scores a b ≡ some Ordering.lt
    → (compare_scores x b ≡ some Ordering.gt) ⊎ (compare_scores x b ≡ some Ordering.eq)
    → compare_scores x a ≢ some Ordering.lt
not_below x none b e (inl q) r = cc
not_below x none b e (inr q) r = cc
not_below x (some a) none e f r = cc
not_below none (some a) (some b) e f r = cc
not_below (some x) (some a) (some b) e f r = ground arith

abbrev pub scores : Floats
scores = record {
  F64 = Option ℕ;
  partial_cmp = compare_scores;
  hundredths = some;
  format_two = λ x. "0.50";
  format_full = λ x. "0.5";
  hundredths_lt = compare_scores_lt;
  not_lt_of_ge = not_below;
}
