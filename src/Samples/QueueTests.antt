-- ===== src/Samples/QueueTests.antt =====
-- The messages of a generation of two concepts, to a queue that refuses everything.
use atlas_of_us.Prelude.{refl, none, some, [], ◌∷◌, arith}
use atlas_of_us.Effects.Defs.{ok, err}
use atlas_of_us.Agent.Queueing.{QueueServices, Batch, ConceptualizedDomain}
use atlas_of_us.Agent.Numbering.{CanSend, SendsAll, queue_all-SendsAll}

abbrev full_queue : QueueServices
full_queue = record {
  env_var = λ name. some "http://queue";
  encode = λ job. ok job.node_name;
  send = λ h region url body. err "full";
  nanos = λ h. 7;
  seconds = λ h. 0;
}

abbrev chess_batch : Batch
chess_batch = record {
  generation_id = "gen-7-Chess";
  total_nodes = 2;
  domain_name = "Chess";
  description = none;
  domain_element_id = "d1";
  domain_levels = [];
}

abbrev chess_concepts : ConceptualizedDomain
chess_concepts = record {
  knowledge = record { name = "Openings"; suggested_level = some 2 } ∷ [];
  skills = [];
  traits = [];
  milestones = record { name = "First win"; suggested_level = none } ∷ [];
}

full_queue_can : CanSend full_queue
full_queue_can = record {
  url = "http://queue";
  body = λ job. job.node_name;
  configured = refl;
  encoded = λ job. refl;
}

queue_all-SendsAll_example : SendsAll full_queue chess_batch chess_concepts []
queue_all-SendsAll_example =
    queue_all-SendsAll full_queue chess_batch chess_concepts [] full_queue_can (omega arith)
