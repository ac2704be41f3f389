-- ===== src/Tests/Requests.antt =====
-- Requests to the routes.
use context_first_docs.Prelude.{some, none, [], ◌∷◌, ◌≡◌, refl, true, false, ok, any, retain}
use context_first_docs.Prelude.Map
use context_first_docs.Sensitivity.{internal, agent_can_read}
use context_first_docs.Types.Audit.{
  proposal_created, proposal_updated, proposal_withdrawn, proposal_applied,
}
use context_first_docs.Types.Node.{key}
use context_first_docs.Types.Proposal.{Proposal, accepted}
use context_first_docs.Types.Query.{NodeQueryResult, any_node}
use context_first_docs.Store.{InMemoryStore}
use context_first_docs.Store.Interface.{in_memory}
use context_first_docs.Store.AuditLog.{append_audit}
use context_first_docs.Store.Queries as Queries
use context_first_docs.Store.Proposals.{get_review_history}
use context_first_docs.Store.Commands.Moves.{status_of}
use context_first_docs.Store.Commands.Patch.{to_accepted}
use context_first_docs.Policy.{agent_max_sensitivity}
use context_first_docs.Policy.Create.{evaluate_on_create, total_content}
use context_first_docs.Policy.Apply.{evaluate_on_apply}
use context_first_docs.Policy.Review.{rejects}
use context_first_docs.Store.Apply.Success.{Needs}
use context_first_docs.Auth.{
  ActorContext, human, agent, reader, reviewer, contributor, applier, admin, has_role,
}
use context_first_docs.Api.{AppState}
use context_first_docs.Api.Nodes.{
  get_node, query_nodes, query_of, NodeQueryParams, denied_event, parse_statuses,
}
use context_first_docs.Api.Proposals.{
  create_proposal, update_proposal, withdraw_proposal, apply_proposal,
}
use context_first_docs.Api.Reviews.{submit_review}
use context_first_docs.Api.Access.{Refuses, agent-Refuses}
use context_first_docs.Api.Redaction.{readable, get_node-hides, query_nodes-agent}
use context_first_docs.Api.Approvals.{submit_review-accepts}
use context_first_docs.Api.Unreviewed.{create_proposal-apply_proposal}
use context_first_docs.Api.Audited.{Announces, mutations-Announce}
use context_first_docs.Tests.Data.{
  rt, rewrite, id_of, node, secret_node, waiting, review, store, actor,
}
use context_first_docs.Tests.Decisions.{policies}

abbrev state : AppState InMemoryStore
state = record { store = store; published = [] }

-- The same state but for the content of the restricted node.
abbrev other_state : AppState InMemoryStore
other_state = record {
  store = record store {
    nodes = ("a", node "a" "zero") ∷ ("s", secret_node "s" "other secret") ∷ [];
  };
  published = [];
}

abbrev guest : ActorContext
guest = actor human []

abbrev robot : ActorContext
robot = actor agent (admin ∷ [])

abbrev judge : ActorContext
judge = actor human (reviewer ∷ [])

requests : Unit {0}
unfolding Map.get has_role agent_can_read get_review_history agent_max_sensitivity query_nodes
requests = tt

agent-Refuses_example :
    Refuses (submit_review in_memory rt policies robot "waiting" review) state
    × Refuses (apply_proposal in_memory rt policies robot "waiting" none) state
agent-Refuses_example = agent-Refuses in_memory rt policies robot state "waiting" review none refl

robot_reads : has_role robot reader ≡ true
unfolding requests
robot_reads = refl

secret_found : Queries.get_node (id_of "s") store ≡ some (secret_node "s" "hidden")
unfolding Queries.get_node Map.get key
secret_found = refl

other_found : Queries.get_node (id_of "s") other_state.store ≡ some (secret_node "s" "other secret")
unfolding Queries.get_node Map.get key
other_found = refl

too_secret : readable policies (secret_node "s" "hidden") ≡ false
unfolding requests
too_secret = refl

get_node-hides_example :
    (get_node in_memory rt policies robot "s" state).0
    ≡ (get_node in_memory rt policies robot "s" other_state).0
get_node-hides_example =
    get_node-hides in_memory rt policies robot "s" state other_state (secret_node "s" "hidden")
      (secret_node "s" "other secret") refl robot_reads secret_found other_found
      (record { id = refl; node_type = refl; status = refl; sensitivity = refl }) too_secret

-- The page of the store, what the agent is shown of it, and the state that is left.
abbrev page : NodeQueryResult
page = Queries.node_page any_node (Map.values store.nodes) (Map.values store.nodes)

abbrev shown : NodeQueryResult
shown = record page { nodes = node "a" "zero" ∷ [] }

abbrev everything : NodeQueryParams
everything = record { status = none; limit = none; offset = none }

abbrev screened : AppState InMemoryStore
screened = record state {
  store = record store { audit_log = denied_event in_memory rt policies robot internal 0 1 ∷ [] };
}

page_shown :
    query_nodes in_memory rt policies robot (λ s. s) everything state ≡ some (ok shown, screened)
unfolding requests Queries.query_nodes Queries.select_nodes parse_statuses append_audit
page_shown = refl

query_nodes-agent_example :
    (all : NodeQueryResult) × (Queries.query_nodes rt (query_of (λ s. s) everything) store
      ≡ some all)
    × (shown ≡ record all { nodes = retain (readable policies) all.nodes })
query_nodes-agent_example =
    query_nodes-agent in_memory rt policies robot (λ s. s) everything state screened shown refl
      page_shown

mutations-Announce_example :
    Announces rt judge proposal_created waiting.id
      (create_proposal in_memory rt policies judge waiting)
      state
    × Announces rt judge proposal_updated "waiting"
        (update_proposal in_memory rt policies judge "waiting" to_accepted)
        state
    × Announces rt judge proposal_withdrawn "waiting"
        (withdraw_proposal in_memory rt policies judge "waiting")
        state
    × Announces rt judge proposal_applied "waiting"
        (apply_proposal in_memory rt policies judge "waiting" none)
        state
mutations-Announce_example =
    mutations-Announce rt policies judge state waiting "waiting" to_accepted none

judge_reviews : has_role judge reviewer ≡ true
unfolding requests
judge_reviews = refl

waiting_found : Map.get "waiting" store.proposals ≡ some waiting
unfolding requests
waiting_found = refl

nobody_rejects : any rejects (get_review_history "waiting" store) ≡ false
unfolding requests
nobody_rejects = refl

-- One approval is enough, though the policies ask for two and for a lead.
submit_review-accepts_example :
    ((submit_review in_memory rt policies judge "waiting" review state).0 ≡ ok tt)
    × (status_of "waiting"
          (submit_review in_memory rt policies judge "waiting" review state).1.store
        ≡ some accepted)
submit_review-accepts_example =
    submit_review-accepts rt policies judge "waiting" review state waiting judge_reviews (λ e. cc)
      refl refl refl waiting_found nobody_rejects

-- An agent posts an accepted proposal, which nobody reviews.
abbrev writer : ActorContext
writer = actor agent (contributor ∷ [])

abbrev operator : ActorContext
operator = actor human (applier ∷ [])

abbrev unreviewed : Proposal
unreviewed = record waiting { id = "unreviewed"; status = accepted }

writer_writes : has_role writer contributor ≡ true
unfolding requests
writer_writes = refl

operator_applies : has_role operator applier ≡ true
unfolding requests
operator_applies = refl

writing_allowed : evaluate_on_create unreviewed "agent" policies ≡ []
unfolding requests evaluate_on_create total_content
writing_allowed = refl

applying_allowed : evaluate_on_apply rt unreviewed "human" policies ≡ []
unfolding requests evaluate_on_apply
applying_allowed = refl

unreviewed_is_new : Map.get "unreviewed" store.proposals ≡ none
unfolding requests
unreviewed_is_new = refl

a_is_there : Needs store.nodes (rewrite "a" 1 "other")
unfolding requests key
a_is_there = (node "a" "zero", refl)

create_proposal-apply_proposal_example :
    ((create_proposal in_memory rt policies writer unreviewed state).0 ≡ ok tt)
    × ((apply_proposal in_memory rt policies operator "unreviewed" none
          (create_proposal in_memory rt policies writer unreviewed state).1).0
        ≡ ok tt)
create_proposal-apply_proposal_example =
    create_proposal-apply_proposal rt policies writer operator none state unreviewed writer_writes
      writing_allowed operator_applies (λ e. cc) applying_allowed unreviewed_is_new refl
      (a_is_there, tt)
