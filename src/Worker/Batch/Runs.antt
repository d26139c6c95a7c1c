-- ===== src/Worker/Batch/Runs.antt =====
-- The loop over a batch against a relation that says what may happen to each message.
use atlas_of_us.Prelude.{
  String, ◌≡◌, refl, ap, ◌↔◌, inl, inr, true, false, Option, none, some, List, [], ◌∷◌, Bool-cases,
}
use mathlib.Core.Path.{subst₂}
use atlas_of_us.Text.{format}
use atlas_of_us.Effects.Defs.{Result, ok, err, pure, raise}
use atlas_of_us.Worker.Job.{NodeGenerationJob, NodeGenerationResult}
use atlas_of_us.Worker.Services.{Services, Float, Call}
use atlas_of_us.Worker.Clients.{LlmService}
use atlas_of_us.Worker.Errors.{ProcessingError, is_retryable_error, show_processing_error}
use atlas_of_us.Worker.Handler.{run_decoded, process_job, process_records, after_job}

module _ (env : Services) (llm : Option LlmService) where
  -- A batch from one history to another, with the outcome of the Lambda.
  pub data Runs
      : List (Option String)
        → List (Call (Float env))
        → Result String (Unit {0})
        → List (Call (Float env))
        → Type 0 where
    finished : {h : List (Call (Float env))} → Runs [] h (ok tt) h
    -- A message without a body is passed over.
    no_body :
        {records : List (Option String)} {h k : List (Call (Float env))}
        {o : Result String (Unit {0})}
        → Runs records h o k
        → Runs (none ∷ records) h o k
    -- So is one that is no job.
    malformed :
        {body e : String} {records : List (Option String)} {h k : List (Call (Float env))}
        {o : Result String (Unit {0})}
        → env.decode_job body ≡ err e
        → Runs records h o k
        → Runs (some body ∷ records) h o k
    -- A job that succeeds, or whose error is final, lets the batch go on from its history.
    processed :
        {body : String} {job : NodeGenerationJob} {r : NodeGenerationResult}
        {records : List (Option String)} {h k : List (Call (Float env))}
        {o : Result String (Unit {0})}
        → env.decode_job body ≡ ok job
        → (process_job env llm job h).0 ≡ ok r
        → Runs records (process_job env llm job h).1 o k
        → Runs (some body ∷ records) h o k
    given_up :
        {body : String} {job : NodeGenerationJob} {e : ProcessingError}
        {records : List (Option String)} {h k : List (Call (Float env))}
        {o : Result String (Unit {0})}
        → env.decode_job body ≡ ok job
        → (process_job env llm job h).0 ≡ err e
        → is_retryable_error e ≡ false
        → Runs records (process_job env llm job h).1 o k
        → Runs (some body ∷ records) h o k
    -- A retryable error fails the whole batch there, and what follows is not looked at.
    retried :
        {body : String} {job : NodeGenerationJob} {e : ProcessingError}
        {records : List (Option String)} {h k : List (Call (Float env))}
        {o : Result String (Unit {0})}
        → env.decode_job body ≡ ok job
        → (process_job env llm job h).0 ≡ err e
        → is_retryable_error e ≡ true
        → o ≡ err (format ("Retryable error: " ∷ show_processing_error e ∷ []))
        → k ≡ (process_job env llm job h).1
        → Runs (some body ∷ records) h o k

  module _ (body : String) (records : List (Option String))
      (rest : List (Call (Float env)) → Result String (Unit {0}) × List (Call (Float env)))
      (rest-Runs : (h : List (Call (Float env))) → Runs records h (rest h).0 (rest h).1) where
    after_job-Runs :
        (job : NodeGenerationJob) (h : List (Call (Float env)))
        (r : Result ProcessingError NodeGenerationResult)
        → env.decode_job body ≡ ok job
        → (process_job env llm job h).0 ≡ r
        → Runs
            (some body ∷ records)
            h
            (after_job env r rest (process_job env llm job h).1).0
            (after_job env r rest (process_job env llm job h).1).1
    unfolding raise
    after_job-Runs job h (ok r) d e = processed d e (rest-Runs (process_job env llm job h).1)
    after_job-Runs job h (err x) d e = elim (Bool-cases (is_retryable_error x)) [
      | inl again ↦ rw again (retried d e again refl refl)
      | inr final ↦ rw final (given_up d e final (rest-Runs (process_job env llm job h).1))
    ]

    run_decoded-Runs :
        (h : List (Call (Float env))) (r : Result String NodeGenerationJob)
        → env.decode_job body ≡ r
        → Runs
            (some body ∷ records)
            h
            (run_decoded env llm r rest h).0
            (run_decoded env llm r rest h).1
    run_decoded-Runs h (err e) d = malformed d (rest-Runs h)
    run_decoded-Runs h (ok job) d = after_job-Runs job h (process_job env llm job h).0 d refl

  process_records-Runs :
      (records : List (Option String)) (h : List (Call (Float env)))
      → Runs records h (process_records env llm records h).0 (process_records env llm records h).1
  unfolding process_records pure
  process_records-Runs [] h = finished
  process_records-Runs (none ∷ records) h = no_body (process_records-Runs records h)
  process_records-Runs (some body ∷ records) h =
      run_decoded-Runs body records (process_records env llm records) (process_records-Runs records)
        h (env.decode_job body) refl

  Runs-process_records :
      {records : List (Option String)} {h k : List (Call (Float env))}
      {o : Result String (Unit {0})}
      → Runs records h o k
      → process_records env llm records h ≡ (o, k)
  unfolding process_records pure raise
  Runs-process_records finished = refl
  Runs-process_records (no_body r) = Runs-process_records r
  Runs-process_records (malformed d r) = rw d (Runs-process_records r)
  Runs-process_records (processed d e r) = rw (d, e) (Runs-process_records r)
  Runs-process_records (given_up d e f r) = rw (d, e, f) (Runs-process_records r)
  Runs-process_records (retried d e f p q) = rw (d, e, f, p, q)

-- The loop over a batch does what the relation says, and nothing else: it passes over messages
-- without a body or that are no jobs, runs each job from the history that the one before left,
-- goes on after a job that succeeds or whose error is final, and fails at the first retryable
-- error without looking at the messages after it.
pub process_records_iff :
    (env : Services) (llm : Option LlmService) (records : List (Option String))
    (h k : List (Call (Float env))) (o : Result String (Unit {0}))
    → (process_records env llm records h ≡ (o, k)) ↔ Runs env llm records h o k
process_records_iff env llm records h k o = (sound, Runs-process_records env llm)
  where
    sound : process_records env llm records h ≡ (o, k) → Runs env llm records h o k
    sound e =
        subst₂ (λ a b. Runs env llm records h a b) (ap (λ x. x.0) e) (ap (λ x. x.1) e)
          (process_records-Runs env llm records h)
