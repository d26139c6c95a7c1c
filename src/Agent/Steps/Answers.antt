-- ===== src/Agent/Steps/Answers.antt =====
-- Records that are tracked by the answers to the requests for their relationships, and the rules by
-- which a step tracks them.
use atlas_of_us.Graph.Models.{ServiceError}
use atlas_of_us.Graph.Requests.{CreateRelationshipResult, CreateRelationshipRequest}
use atlas_of_us.Effects.Counting.{bind-run}
use atlas_of_us.Effects.Defs.{Result, err, ok, ◌>>=◌, pure}
use atlas_of_us.Agent.Steps.Environment.{
  State, change_context, serve, Step, relate, StepEnvironment,
}
use atlas_of_us.Agent.Generation.Models.{AgentContext}
use atlas_of_us.Prelude.{
  ℕ, ◌+◌, String, ◌≡◌, refl, sym, ap, ◌∙◌, Bool, true, false, Option, none, some, List, [], ◌∷◌,
  ◌++◌, arith, length, length-append,
}

module _ (env : StepEnvironment) {R : Type 0}
    (ask : R → Option (CreateRelationshipRequest env.json.Value)) where
  -- What becomes of one record: nothing is asked for it, or the service refuses the relationship,
  -- or creates it, and only then the record is tracked.
  pub data Answered (r : R) (w : env.World) : List R → env.World → Type 0 where
    unasked : ask r ≡ none → Answered r w [] w
    refused :
        (request : CreateRelationshipRequest env.json.Value) (e : ServiceError env.floats.F64)
        (w' : env.World)
        → ask r ≡ some request
        → env.create_relationship request w ≡ (err e, w')
        → Answered r w [] w'
    created :
        (request : CreateRelationshipRequest env.json.Value) (result : CreateRelationshipResult)
        (w' : env.World)
        → ask r ≡ some request
        → env.create_relationship request w ≡ (ok result, w')
        → Answered r w (r ∷ []) w'

  -- The same of several records, one after the other.
  pub data AllAnswered : List R → env.World → List R → env.World → Type 0 where
    done : (w : env.World) → AllAnswered [] w [] w
    next :
        (r : R) {rs first rest : List R} {w w1 w' : env.World}
        → Answered r w first w1
        → AllAnswered rs w1 rest w'
        → AllAnswered (r ∷ rs) w (first ++ rest) w'

abbrev pub relationship_request :
    (env : StepEnvironment)
    → String
    → String
    → String
    → Option (List (String × env.json.Value))
    → CreateRelationshipRequest env.json.Value
relationship_request env source target type properties = record {
  source_id = source;
  target_id = target;
  relationship_type = type;
  properties = properties;
}

-- A run that returns the number of the records that it tracks, changes the context by writing
-- these, and sends nothing; `Chosen` says which records these are.
pub record Tracks {R : Type 0} (write : List R → AgentContext → AgentContext)
    (env : StepEnvironment) (Chosen : env.World → List R → env.World → Type 0) (m : Step env ℕ)
    (s : State env) : Type 0 where
  pub tracked : List R
  pub count : ℕ
  pub after : State env
  pub ran : m s ≡ (ok count, after)
  pub counted : count ≡ length tracked
  pub written : after.context ≡ write tracked s.context
  pub quiet : after.events ≡ s.events
  pub chosen : Chosen s.world tracked after.world

-- The writing described otherwise.
pub Tracks-write :
    {R : Type 0} {write other : List R → AgentContext → AgentContext} {env : StepEnvironment}
    {Chosen : env.World → List R → env.World → Type 0} {m : Step env ℕ} {s : State env}
    → ((rs : List R) (c : AgentContext) → write rs c ≡ other rs c)
    → Tracks write env Chosen m s
    → Tracks other env Chosen m s
Tracks-write {s = s} same t = record {
  tracked = t.tracked;
  count = t.count;
  after = t.after;
  ran = t.ran;
  counted = t.counted;
  written = t.written ∙ same t.tracked s.context;
  quiet = t.quiet;
  chosen = t.chosen;
}

module _ {R : Type 0} (add : R → AgentContext → AgentContext) where
  abbrev pub add_all : List R → AgentContext → AgentContext
  add_all [] c = c
  add_all (r ∷ rs) c = add_all rs (add r c)

  add_all-append :
      (rs qs : List R) (c : AgentContext) → add_all (rs ++ qs) c ≡ add_all qs (add_all rs c)
  add_all-append [] qs c = refl
  add_all-append (r ∷ rs) qs c = add_all-append rs qs (add r c)

  module _ (env : StepEnvironment)
      (ask : R → Option (CreateRelationshipRequest env.json.Value)) where
    pub Tracks-done : (s : State env) → Tracks add_all env (AllAnswered env ask []) (pure 0) s
    unfolding pure
    Tracks-done s = record {
      tracked = [];
      count = 0;
      after = s;
      ran = refl;
      counted = omega arith;
      written = refl;
      quiet = refl;
      chosen = done s.world;
    }

    pub Tracks-unasked :
        (r : R) (s : State env) → ask r ≡ none → Tracks add_all env (Answered env ask r) (pure 0) s
    unfolding pure
    Tracks-unasked r s q = record {
      tracked = [];
      count = 0;
      after = s;
      ran = refl;
      counted = omega arith;
      written = refl;
      quiet = refl;
      chosen = unasked q;
    }

    -- One more before the rest.
    pub Tracks-next :
        (r : R) (rs : List R) (m n : Step env ℕ) (s : State env)
        → Tracks add_all env (Answered env ask r) m s
        → ((s' : State env) → Tracks add_all env (AllAnswered env ask rs) n s')
        → Tracks add_all env
            (AllAnswered env ask (r ∷ rs))
            (m >>= λ one. n >>= λ rest. pure (one + rest))
            s
    unfolding pure
    Tracks-next r rs m n s first later =
        let rest = later first.after in
        record {
          tracked = first.tracked ++ rest.tracked;
          count = first.count + rest.count;
          after = rest.after;
          ran = bind-run _ _ first.ran (bind-run _ _ rest.ran refl);
          counted =
              let total = length-append first.tracked rest.tracked in
              omega (arith, first.counted, rest.counted, total);
          written =
              rest.written
              ∙ ap (add_all rest.tracked) first.written
              ∙ sym (add_all-append first.tracked rest.tracked s.context);
          quiet = rest.quiet ∙ first.quiet;
          chosen = next r first.chosen rest.chosen;
        }

    -- One record whose relationship is asked for, and which is tracked where that was created.
    pub Tracks-relate :
        (r : R) (source target type : String) (properties : Option (List (String × env.json.Value)))
        (track : Bool → Step env ℕ) (s : State env)
        → ask r ≡ some (relationship_request env source target type properties)
        → track false ≡ pure 0
        → track true ≡ (change_context env (add r) >>= λ _. pure 1)
        → Tracks add_all env
            (Answered env ask r)
            (relate env source target type properties >>= track)
            s
    unfolding relate serve change_context pure ◌>>=◌
    Tracks-relate r source target type properties track s asked skips adds =
        let request = relationship_request env source target type properties in
        let answer = env.create_relationship request s.world in go answer.0 answer.1 refl
      where
        go :
            (a : Result (ServiceError env.floats.F64) CreateRelationshipResult) (w : env.World)
            → env.create_relationship
                (relationship_request env source target type properties)
                s.world
              ≡ (a, w)
            → Tracks add_all env
                (Answered env ask r)
                (relate env source target type properties >>= track)
                s
        go (err e) w q =
            let world : Result (ServiceError env.floats.F64) CreateRelationshipResult × env.World
                → State env =
              λ x. record s { world = x.1 } in
            record {
              tracked = [];
              count = 0;
              after = record s { world = w };
              ran =
                  ap (λ x. track (elim x.0 [ ok _ ↦ true | err _ ↦ false ]) (world x)) q
                  ∙ ap (λ m. m (record s { world = w })) skips;
              counted = omega arith;
              written = refl;
              quiet = refl;
              chosen = refused _ e w asked q;
            }
        go (ok result) w q =
            let world : Result (ServiceError env.floats.F64) CreateRelationshipResult × env.World
                → State env =
              λ x. record s { world = x.1 } in
            record {
              tracked = r ∷ [];
              count = 1;
              after = record s { world = w; context = add r s.context };
              ran =
                  ap (λ x. track (elim x.0 [ ok _ ↦ true | err _ ↦ false ]) (world x)) q
                  ∙ ap (λ m. m (record s { world = w })) adds;
              counted = omega arith;
              written = refl;
              quiet = refl;
              chosen = created _ result w asked q;
            }
