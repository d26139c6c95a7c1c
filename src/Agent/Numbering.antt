-- ===== src/Agent/Numbering.antt =====
-- The order and the numbers of the messages of an asynchronous generation.
use mathlib.Core.List.{append_assoc, append-nil}
use atlas_of_us.Prelude.{
  ℕ, suc, ◌+◌, ◌%◌, ◌^◌, ◌<◌, String, ◌≡◌, refl, sym, ap, ◌∙◌, some, List, [], ◌∷◌, ◌++◌, arith,
  length,
}
use atlas_of_us.Effects.Defs.{
  unwrap_or, Result, ok, Eff, pure, call, attempt, with_err, ◌>>=◌, map_err,
}
use atlas_of_us.Effects.Counting.{bind-run}
use atlas_of_us.Text.{format}
use atlas_of_us.Worker.Job.{NodeType, knowledge, skill, trait, milestone, NodeGenerationJob}
use atlas_of_us.Agent.Queueing.{
  count_concepts, queue_all, QueueCall, QueueServices, ConceptualizedNode, ConceptualizedDomain,
  Batch, new_job, queue_node_generation, queue_concepts,
}

-- A message by its number, the number of all messages, its type and its concept.
pub record Message : Type 0 where
  pub number : ℕ
  pub total : ℕ
  pub type : NodeType
  pub concept : ConceptualizedNode

-- The messages for the concepts of a type, numbered from `n`.
unfoldable pub plan : ℕ → NodeType → ℕ → List ConceptualizedNode → List Message
plan total t n [] = []
plan total t n (c ∷ cs) =
    record { number = n; total = total; type = t; concept = c } ∷ plan total t (n + 1) cs

abbrev pub plan_all : ℕ → ConceptualizedDomain → List Message
plan_all total d =
    let k = length d.knowledge in
    let s = k + length d.skills in
    let t = s + length d.traits in
    plan total knowledge 0 d.knowledge
    ++ (plan total skill k d.skills
        ++ (plan total trait s d.traits ++ plan total milestone t d.milestones))

abbrev pub message_of : NodeGenerationJob → Message
message_of j = record {
  number = j.sequence_number;
  total = j.total_nodes;
  type = j.node_type;
  concept = record { name = j.node_name; suggested_level = j.suggested_level };
}

-- What was sent, the oldest message first.
unfoldable pub messages : List QueueCall → List Message
messages [] = []
messages (c ∷ h) = messages h ++ message_of c.job ∷ []

-- The queue is configured, and every message can be written as JSON.
pub record CanSend (env : QueueServices) : Type 0 where
  pub url : String
  pub body : NodeGenerationJob → String
  pub configured : env.env_var "DOMAIN_NODE_QUEUE_URL" ≡ some url
  pub encoded : (job : NodeGenerationJob) → env.encode job ≡ ok (body job)

module _ (env : QueueServices) (can : CanSend env) (batch : Batch) where
  -- A run that sends the messages of a plan and returns the next number.
  record Sends (next : ℕ) (planned : List Message) (m : Eff QueueCall String ℕ) (h : List QueueCall)
      : Type 0 where
    history : List QueueCall
    ran : m h ≡ (ok next, history)
    sent : messages history ≡ messages h ++ planned

  record Queued (job : NodeGenerationJob) (h : List QueueCall) : Type 0 where
    result : Result String (Unit {0})
    sent_call : QueueCall
    ran : attempt {F = String} (queue_node_generation env job) h ≡ (ok result, sent_call ∷ h)
    same : sent_call.job ≡ job

  queue_node_generation-Queued : (job : NodeGenerationJob) (h : List QueueCall) → Queued job h
  unfolding queue_node_generation attempt with_err call ◌>>=◌
  queue_node_generation-Queued job h = record {
    result =
        map_err (λ e. format ("Failed to send message to SQS: " ∷ e ∷ []))
          (env.send h (unwrap_or (env.env_var "AWS_REGION") "us-east-2") can.url (can.body job));
    sent_call = record {
      region = unwrap_or (env.env_var "AWS_REGION") "us-east-2";
      url = can.url;
      job = job;
      body = can.body job;
    };
    ran = rw (can.configured, can.encoded job) refl;
    same = refl;
  }

  message : NodeType → ℕ → ConceptualizedNode → Message
  message t n c = record { number = n; total = batch.total_nodes; type = t; concept = c }

  record Made (t : NodeType) (n : ℕ) (c : ConceptualizedNode) (h : List QueueCall) : Type 0 where
    job : NodeGenerationJob
    ran : new_job env batch n t c h ≡ (ok job, h)
    said : message_of job ≡ message t n c

  new_job-Made : (t : NodeType) (n : ℕ) (c : ConceptualizedNode) (h : List QueueCall) → Made t n c h
  unfolding new_job message
  new_job-Made t n c h = record { job = _; ran = refl; said = refl }

  queue_concepts-Sends :
      (t : NodeType) (n : ℕ) (cs : List ConceptualizedNode) (h : List QueueCall)
      → n + length cs < 2 ^ 32
      → Sends (n + length cs) (plan batch.total_nodes t n cs) (queue_concepts env batch t n cs) h
  unfolding queue_concepts plan pure messages message
  queue_concepts-Sends t n [] h small = record {
    history = h;
    ran = let none_more : n + 0 ≡ n = omega arith in rw none_more refl;
    sent = sym (append-nil (messages h));
  }
  queue_concepts-Sends t n (c ∷ cs) h small =
      let made = new_job-Made t n c h in
      let q = queue_node_generation-Queued made.job h in
      let rest = queue_concepts-Sends t (n + 1) cs (q.sent_call ∷ h) (omega (arith, small)) in
      let wrap : (n + 1) % 2 ^ 32 ≡ n + 1 = omega (arith, small) in
      let sum : n + 1 + length cs ≡ n + suc (length cs) = omega arith in
      let said : message_of q.sent_call.job ≡ message t n c = rw q.same made.said in
      record {
        history = rest.history;
        ran =
            bind-run _ _ made.ran
              (bind-run _ _ q.ran (rw wrap (rest.ran ∙ ap (λ k. (ok k, rest.history)) sum)));
        sent =
            rest.sent
            ∙ append_assoc (messages h) (message_of q.sent_call.job ∷ [])
                (plan batch.total_nodes t (n + 1) cs)
            ∙ ap (λ m. messages h ++ m ∷ plan batch.total_nodes t (n + 1) cs) said;
      }

then_append :
    (a x y : List Message) {b c : List Message} → b ≡ a ++ x → c ≡ b ++ y → c ≡ a ++ (x ++ y)
then_append a x y p q = q ∙ ap (λ l. l ++ y) p ∙ append_assoc a x y

-- The outcome of sending all messages of a generation: they are the planned ones in their order,
-- and their number is the total that each of them names.
pub record SendsAll (env : QueueServices) (batch : Batch) (concepts : ConceptualizedDomain)
    (h : List QueueCall) : Type 0 where
  pub history : List QueueCall
  pub ran : queue_all env batch concepts h ≡ (ok (count_concepts concepts), history)
  pub sent : messages history ≡ messages h ++ plan_all batch.total_nodes concepts

-- Where the queue is configured and messages can be written, and there are fewer than 2 ^ 32
-- concepts, queueing returns their number, and has tried to send one message for each concept,
-- whatever the queue answers: knowledge, skills, traits and milestones in this order, numbered from
-- 0 without gaps, with the total of the batch.
pub queue_all-SendsAll :
    (env : QueueServices) (batch : Batch) (concepts : ConceptualizedDomain) (h : List QueueCall)
    → CanSend env
    → length concepts.knowledge
        + length concepts.skills
        + length concepts.traits
        + length concepts.milestones
      < 2 ^ 32
    → SendsAll env batch concepts h
unfolding queue_all count_concepts
queue_all-SendsAll env batch d h can small =
    let k = queue_concepts-Sends env can batch knowledge 0 d.knowledge h (omega (arith, small)) in
    let s =
      queue_concepts-Sends env can batch skill (length d.knowledge) d.skills k.history
        (omega (arith, small)) in
    let t =
      queue_concepts-Sends env can batch trait (length d.knowledge + length d.skills) d.traits
        s.history (omega (arith, small)) in
    let m =
      queue_concepts-Sends env can batch milestone
        (length d.knowledge + length d.skills + length d.traits) d.milestones t.history
        (omega (arith, small)) in
    let ks = plan batch.total_nodes knowledge 0 d.knowledge in
    let ss = plan batch.total_nodes skill (length d.knowledge) d.skills in
    let ts = plan batch.total_nodes trait (length d.knowledge + length d.skills) d.traits in
    let ms =
      plan batch.total_nodes milestone (length d.knowledge + length d.skills + length d.traits)
        d.milestones in
    let none_before : 0 + length d.knowledge ≡ length d.knowledge = omega arith in
    let whole : (length d.knowledge + length d.skills + length d.traits + length d.milestones)
          % 2 ^ 32
        ≡ length d.knowledge + length d.skills + length d.traits + length d.milestones =
      omega (arith, small) in
    record {
      history = m.history;
      ran = rw whole (
          bind-run _ _ (k.ran ∙ ap (λ n. (ok n, k.history)) none_before)
            (bind-run _ _ s.ran (bind-run _ _ t.ran m.ran)));
      sent = then_append (messages h) ks (ss ++ (ts ++ ms)) k.sent (
          then_append (messages k.history) ss (ts ++ ms) s.sent
            (then_append (messages s.history) ts ms t.sent m.sent));
    }
