-- ===== src/Tests/Data.antt =====
-- A runtime, some nodes and proposals, and a store that holds them.
use context_first_docs.Prelude.{ℕ, String, none, some, List, [], ◌∷◌}
use context_first_docs.Sensitivity.{restricted}
use context_first_docs.Types.Node.{ContextNode, NodeId, NodeMetadata, decision, accepted}
use context_first_docs.Types.Proposal.{
  Operation, create, update, Proposal, ProposalStatus, Review, accept,
}
use context_first_docs.Runtime.{Runtime}
use context_first_docs.Auth.{ActorContext, ActorType, Role}
use context_first_docs.Store.{InMemoryStore, new}

abbrev pub rt : Runtime
rt = record {
  now = "2026-01-05T10:00:00Z";
  weekday = 1;
  hour = 10;
  fresh_id = λ n. "fresh";
  sha256_hex = λ c. c;
  parse_comments = λ v. none;
  to_lowercase = λ s. s;
  arrange_nodes = λ xs. xs;
  arrange_proposals = λ xs. xs;
  arrange_keys = λ xs. xs;
}

abbrev pub id_of : String → NodeId
id_of id = record { id = id; namespace = none }

abbrev pub node_metadata : NodeMetadata
node_metadata = record {
  created_at = "t0";
  created_by = "ann";
  modified_at = "t0";
  modified_by = "ann";
  tags = none;
  implemented_in_commit = none;
  referenced_in_commits = none;
  version = 3;
  sensitivity = none;
  content_hash = some "old";
  source_attribution = none;
  ip_classification = none;
  license = none;
}

abbrev pub node : String → String → ContextNode
node id content = record {
  id = id_of id;
  node_type = decision;
  status = accepted;
  title = none;
  description = none;
  content = content;
  text_range = none;
  metadata = node_metadata;
  relationships = none;
  relations = none;
  referenced_by = none;
  source_files = none;
  decision = none;
  rationale = none;
  alternatives = none;
  decided_at = none;
  state = none;
  assignee = none;
  due_date = none;
  dependencies = none;
  severity = none;
  likelihood = none;
  mitigation = none;
  question = none;
  answer = none;
  answered_at = none;
  constraint = none;
  reason = none;
}

abbrev pub secret_node : String → String → ContextNode
secret_node id content = record (node id content) {
  metadata = record node_metadata { sensitivity = some restricted };
}

abbrev pub proposal : String → ProposalStatus → List Operation → Proposal
proposal id status operations = record {
  id = id;
  status = status;
  operations = operations;
  metadata = record {
    created_at = "t1";
    created_by = "bob";
    modified_at = "t1";
    modified_by = "bob";
    rationale = none;
    required_approvers = none;
    approved_by = none;
    base_versions = some (("a", 2) ∷ []);
  };
  comments = none;
  relations = none;
  applied = none;
}

-- A new content for the node `id`.
abbrev pub rewrite : String → ℕ → String → Operation
rewrite id order content =
    update "op" order (id_of id) (record { content = some content; status = none; extra = none })

abbrev pub operations : List Operation
operations = rewrite "b" 2 "third" ∷ create "op" 1 (node "b" "second") ∷ rewrite "a" 1 "first" ∷ []

-- `good` can be applied, `torn` fails at its second operation, `done` is waiting for a review.
abbrev pub good : Proposal
good = proposal "good" ProposalStatus.accepted operations

abbrev pub torn : Proposal
torn = proposal "torn" ProposalStatus.accepted (rewrite "a" 1 "half" ∷ rewrite "gone" 2 "lost" ∷ [])

abbrev pub waiting : Proposal
waiting = proposal "waiting" ProposalStatus.«open» (rewrite "a" 1 "other" ∷ [])

abbrev pub finished : Proposal
finished = proposal "finished" ProposalStatus.applied (rewrite "a" 1 "past" ∷ [])

abbrev pub store : InMemoryStore
store = record new {
  nodes = ("a", node "a" "zero") ∷ ("s", secret_node "s" "hidden") ∷ [];
  proposals = ("good", good) ∷ ("torn", torn) ∷ ("waiting", waiting) ∷ ("finished", finished) ∷ [];
}

abbrev pub review : Review
review = record {
  id = "r1";
  proposal_id = "waiting";
  reviewer = "cid";
  reviewer_role = some "reviewer";
  reviewed_at = "t2";
  action = accept;
  comment = none;
  comments = none;
  operation_ids = none;
  is_approval = none;
}

abbrev pub actor : ActorType → List Role → ActorContext
actor actor_type roles = record { actor_id = "cid"; actor_type = actor_type; roles = roles }
