-- ===== src/Agent/Queueing.antt =====
-- The messages of an asynchronous generation: domains/agent/handlers.rs (step 4 of
-- generate_domain_async) and common/sqs.rs. Both crates declare the message with the same fields;
-- it is the worker's record here.
use atlas_of_us.Prelude.{ℕ, ◌+◌, ◌%◌, ◌^◌, String, Option, List, [], ◌∷◌, length}
use atlas_of_us.Text.{format, decimal}
use atlas_of_us.Effects.Defs.{
  Result, ok, Eff, pure, lift, call, ◌>>=◌, ◌>>◌, ok_or, map_err, with_err, attempt, unwrap_or,
}
use atlas_of_us.Worker.Job.{
  NodeType, knowledge, skill, trait, milestone, DomainLevelInfo, NodeGenerationJob,
}

-- A message that was sent to the queue of a region, with its text.
pub record QueueCall : Type 0 where
  pub region : String
  pub url : String
  pub job : NodeGenerationJob
  pub body : String

-- The environment, serde_json, SQS and the clock.
pub record QueueServices : Type 0 where
  pub env_var : String → Option String
  pub encode : NodeGenerationJob → Result String String
  pub send : List QueueCall → String → String → String → Result String (Unit {0})
  pub nanos : List QueueCall → ℕ
  pub seconds : List QueueCall → ℕ

pub record ConceptualizedNode : Type 0 where
  pub name : String
  pub suggested_level : Option ℕ

pub record ConceptualizedDomain : Type 0 where
  pub knowledge : List ConceptualizedNode
  pub skills : List ConceptualizedNode
  pub traits : List ConceptualizedNode
  pub milestones : List ConceptualizedNode

-- What the messages of one generation share.
pub record Batch : Type 0 where
  pub generation_id : String
  pub total_nodes : ℕ
  pub domain_name : String
  pub description : Option String
  pub domain_element_id : String
  pub domain_levels : List DomainLevelInfo

-- The number of nodes as a `u32`.
unfoldable pub count_concepts : ConceptualizedDomain → ℕ
count_concepts c =
    (length c.knowledge + length c.skills + length c.traits + length c.milestones) % 2 ^ 32

module _ (env : QueueServices) where
  -- `NodeGenerationJob::new`, which reads the clock.
  unfoldable pub new_job :
      Batch → ℕ → NodeType → ConceptualizedNode → Eff QueueCall String NodeGenerationJob
  new_job batch sequence node_type concept h = (
    ok (record {
      job_id = format ("job-" ∷ decimal (env.nanos h) ∷ "-" ∷ decimal sequence ∷ []);
      generation_id = batch.generation_id;
      sequence_number = sequence;
      total_nodes = batch.total_nodes;
      node_type = node_type;
      node_name = concept.name;
      domain_name = batch.domain_name;
      domain_description = batch.description;
      domain_element_id = batch.domain_element_id;
      domain_levels = batch.domain_levels;
      suggested_level = concept.suggested_level;
      created_at = decimal (env.seconds h);
      retry_count = 0;
    }),
    h,
  )

  unfoldable pub queue_node_generation : NodeGenerationJob → Eff QueueCall String (Unit {0})
  queue_node_generation job = do
    queue_url ← lift (
        ok_or (env.env_var "DOMAIN_NODE_QUEUE_URL")
          "DOMAIN_NODE_QUEUE_URL environment variable not set")
    let region = unwrap_or (env.env_var "AWS_REGION") "us-east-2"
    message_body ←
        lift (map_err (λ e. format ("Failed to serialize job: " ∷ e ∷ [])) (env.encode job))
    with_err (λ e. format ("Failed to send message to SQS: " ∷ e ∷ []))
        (call (record { region = region; url = queue_url; job = job; body = message_body })
          (λ h. env.send h region queue_url message_body))

  -- One of the four loops: the next sequence number. A failure is only logged.
  unfoldable pub queue_concepts :
      Batch → NodeType → ℕ → List ConceptualizedNode → Eff QueueCall String ℕ
  queue_concepts batch node_type sequence [] = pure sequence
  queue_concepts batch node_type sequence (concept ∷ concepts) = do
    job ← new_job batch sequence node_type concept
    attempt {F = String} (queue_node_generation job)
    queue_concepts batch node_type ((sequence + 1) % 2 ^ 32) concepts

  -- The messages of all nodes.
  unfoldable pub queue_all : Batch → ConceptualizedDomain → Eff QueueCall String ℕ
  unfolding new_job queue_node_generation queue_concepts
  queue_all batch concepts = do
    skills_from ← queue_concepts batch knowledge 0 concepts.knowledge
    traits_from ← queue_concepts batch skill skills_from concepts.skills
    milestones_from ← queue_concepts batch trait traits_from concepts.traits
    queue_concepts batch milestone milestones_from concepts.milestones
