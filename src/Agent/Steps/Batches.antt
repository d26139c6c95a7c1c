-- ===== src/Agent/Steps/Batches.antt =====
-- A batch that returns has one result for each of its inputs.
use atlas_of_us.Agent.Generation.Models.{Abort}
use atlas_of_us.Effects.Counting.{bind-ok, pure-ok}
use atlas_of_us.Effects.Defs.{map_ok, err, lift, ok, Result}
use atlas_of_us.Agent.Steps.Environment.{State, run_batch, run_each, Step, StepEnvironment, collect}
use atlas_of_us.Prelude.{suc, String, ◌≡◌, refl, ◌∙◌, List, [], ◌∷◌, arith, length}

module _ (env : StepEnvironment) {X A : Type 0} (f : X → Step env A) where
  run_each-length :
      (xs : List X) (s : State env) (rs : List (Result String A))
      → (run_each env f xs s).0 ≡ ok rs
      → length rs ≡ length xs
  unfolding run_each
  run_each-length [] s rs e =
      let same : [] ≡ rs = cc (pure-ok {S = State env} {E = Abort} [] rs s e) in rw (← same)
  run_each-length (x ∷ xs) s rs e =
      let (r, s1, _, _, e1, _) = bind-ok _ _ s rs e in
      let (rest, s2, e2, _, e3, _) = bind-ok _ _ s1 rs e1 in
      let ih = run_each-length xs s1 rest e2 in
      let same : r ∷ rest ≡ rs = pure-ok {S = State env} {E = Abort} _ rs s2 e3 in
      rw (← same) (omega (arith, ih))

collect-length :
    {A : Type 0} (rs : List (Result String A)) (xs : List A)
    → collect rs ≡ ok xs
    → length xs ≡ length rs
unfolding collect
collect-length [] xs e = let same : [] ≡ xs = cc in rw (← same)
collect-length (err m ∷ rs) xs e = cc
collect-length {A} (ok a ∷ rs) xs e = go (collect rs) (λ ys q. collect-length rs ys q) e
  where
    go :
        (r : Result Abort (List A))
        → ((ys : List A) → r ≡ ok ys → length ys ≡ length rs)
        → map_ok (λ ys. a ∷ ys) r ≡ ok xs
        → length xs ≡ suc (length rs)
    go (ok ys) ih h =
        let same : a ∷ ys ≡ xs = cc in let rest = ih ys refl in rw (← same) (omega (arith, rest))
    go (err x) ih h = cc

module _ (env : StepEnvironment) {X A : Type 0} (f : X → Step env A) where
  pub run_batch-length :
      (xs : List X) (s : State env) (as' : List A)
      → (run_batch env f xs s).0 ≡ ok as'
      → length as' ≡ length xs
  unfolding run_batch lift
  run_batch-length xs s as' e =
      let (rs, s1, e1, _, e2, _) = bind-ok _ _ s as' e in
      collect-length rs as' e2 ∙ run_each-length env f xs s rs e1
