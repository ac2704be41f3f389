-- ===== src/Store/Interface.antt =====
-- The trait `ContextStore` of server/src/store/context_store.rs, as far as the routes use it, and
-- the in-memory store behind it. A handler takes any store.
use context_first_docs.Prelude.{ℕ, String, Option, List}
use context_first_docs.Types.Json.{Json}
use context_first_docs.Types.Node.{ContextNode, NodeId}
use context_first_docs.Types.Proposal.{Proposal, Review}
use context_first_docs.Types.Audit.{AuditEvent}
use context_first_docs.Types.Query.{NodeQuery, NodeQueryResult}
use context_first_docs.Runtime.{Runtime}
use context_first_docs.Store.{InMemoryStore, Method}
use context_first_docs.Store.Apply.{apply_proposal}
use context_first_docs.Store.Proposals.{
  get_proposal, create_proposal, update_proposal, submit_review, withdraw_proposal,
  get_review_history,
}
use context_first_docs.Store.Queries.{get_node, query_nodes, get_open_proposals}
use context_first_docs.Store.AuditLog.{AuditFilter, reset, append_audit, query_audit}

pub record ContextStore (S : Type 0) : Type 0 where
  pub get_node : NodeId → S → Option ContextNode
  pub query_nodes : Runtime → NodeQuery → S → Option NodeQueryResult
  pub get_proposal : String → S → Option Proposal
  pub create_proposal : Proposal → Method S (Unit {0})
  pub update_proposal : Runtime → String → Json → Method S (Unit {0})
  pub submit_review : Review → Method S (Unit {0})
  pub apply_proposal : Runtime → String → String → Method S (Unit {0})
  pub withdraw_proposal : String → Method S (Unit {0})
  pub get_review_history : String → S → List Review
  pub get_open_proposals : Runtime → S → List Proposal
  pub reset : Method S (Unit {0})
  pub append_audit : AuditEvent → Method S (Unit {0})
  pub query_audit : AuditFilter → Option ℕ → Option ℕ → S → List AuditEvent

-- `impl ContextStore for InMemoryStore`
abbrev pub in_memory : ContextStore InMemoryStore
in_memory = record {
  get_node = get_node;
  query_nodes = query_nodes;
  get_proposal = get_proposal;
  create_proposal = create_proposal;
  update_proposal = update_proposal;
  submit_review = submit_review;
  apply_proposal = apply_proposal;
  withdraw_proposal = withdraw_proposal;
  get_review_history = get_review_history;
  get_open_proposals = get_open_proposals;
  reset = reset;
  append_audit = append_audit;
  query_audit = query_audit;
}
