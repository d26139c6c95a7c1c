-- ===== src/Floats.antt =====
-- `f64` as the program uses it: scores are compared with two-decimal literals and printed.
use atlas_of_us.Prelude.{
  ℕ, ◌<◌, Ordering, String, ◌≡◌, refl, ◌≢◌, ◌⊎◌, inl, inr, Bool, true, false, Option, none, some,
}

pub record Floats : Type 1 where
  pub F64 : Type 0
  -- `f64::partial_cmp`; `none` where a side is NaN.
  pub partial_cmp : F64 → F64 → Option Ordering
  -- The literal n / 100.
  pub hundredths : ℕ → F64
  -- `{:.2}` and `{}`
  pub format_two : F64 → String
  pub format_full : F64 → String
  -- Literals with two decimals are ordered as the numbers that they stand for.
  pub hundredths_lt :
      (a b : ℕ) → a < b → partial_cmp (hundredths a) (hundredths b) ≡ some Ordering.lt
  -- What is at least `b` is not below an `a` below `b`.
  pub not_lt_of_ge :
      (x a b : F64)
      → partial_cmp a b ≡ some Ordering.lt
      → (partial_cmp x b ≡ some Ordering.gt) ⊎ (partial_cmp x b ≡ some Ordering.eq)
      → partial_cmp x a ≢ some Ordering.lt

abbrev pub is_lt : Option Ordering → Bool
is_lt (some Ordering.lt) = true
is_lt _ = false

abbrev pub is_gt : Option Ordering → Bool
is_gt (some Ordering.gt) = true
is_gt _ = false

abbrev pub is_ge : Option Ordering → Bool
is_ge (some Ordering.gt) = true
is_ge (some Ordering.eq) = true
is_ge _ = false

below :
    (o p : Option Ordering)
    → ((o ≡ some Ordering.gt) ⊎ (o ≡ some Ordering.eq) → p ≢ some Ordering.lt)
    → is_ge o ≡ true
    → is_lt p ≡ false
below (some Ordering.gt) (some Ordering.lt) f e = absurd (f (inl refl) refl)
below (some Ordering.eq) (some Ordering.lt) f e = absurd (f (inr refl) refl)
below (some Ordering.lt) (some Ordering.lt) f e = cc
below none (some Ordering.lt) f e = cc
below o (some Ordering.eq) f e = refl
below o (some Ordering.gt) f e = refl
below o none f e = refl

-- `x < y`, `x >= y` and `x > y`; all are false where a side is NaN.
module _ (fl : Floats) where
  abbrev pub lt_f64 : fl.F64 → fl.F64 → Bool
  lt_f64 x y = is_lt (fl.partial_cmp x y)

  abbrev pub ge_f64 : fl.F64 → fl.F64 → Bool
  ge_f64 x y = is_ge (fl.partial_cmp x y)

  abbrev pub gt_f64 : fl.F64 → fl.F64 → Bool
  gt_f64 x y = is_gt (fl.partial_cmp x y)

  -- A score at or above one literal is not below a lower one.
  pub lt-ge_literals :
      (x : fl.F64) (a b : ℕ)
      → a < b
      → ge_f64 x (fl.hundredths b) ≡ true
      → lt_f64 x (fl.hundredths a) ≡ false
  lt-ge_literals x a b h e =
      below (fl.partial_cmp x (fl.hundredths b)) (fl.partial_cmp x (fl.hundredths a))
        (fl.not_lt_of_ge x (fl.hundredths a) (fl.hundredths b) (fl.hundredths_lt a b h)) e
