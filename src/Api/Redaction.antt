-- ===== src/Api/Redaction.antt =====
-- What an agent is shown of the nodes: the redaction of server/src/api/routes.rs.
use context_first_docs.Prelude.{
  ℕ, String, none, some, List, [], ◌∷◌, ◌≡◌, refl, sym, ◌∙◌, arith, Bool, true, false, ok,
  Bool-cases, inl, inr, retain, ap, Option-cases,
}
use context_first_docs.Sensitivity.{agent_can_read}
use context_first_docs.Types.Node.{ContextNode}
use context_first_docs.Types.Query.{NodeQueryResult}
use context_first_docs.Runtime.{Runtime}
use context_first_docs.Policy.{PolicyConfig, agent_max_sensitivity}
use context_first_docs.Auth.{ActorContext, agent, reader, has_role}
use context_first_docs.Store.Interface.{ContextStore}
use context_first_docs.Api.{AppState}
use context_first_docs.Api.Nodes.{
  get_node, query_nodes, NodeQueryParams, query_of, screen, filter_for_agent, sensitivity_of,
  redact, redacted, visible_page,
}

-- What the redacted form of a node shows.
pub record SameOutside (n m : ContextNode) : Type 0 where
  pub id : n.id ≡ m.id
  pub node_type : n.node_type ≡ m.node_type
  pub status : n.status ≡ m.status
  pub sensitivity : sensitivity_of n ≡ sensitivity_of m

-- The policies let an agent read the node.
abbrev pub readable : PolicyConfig → ContextNode → Bool
readable policies node = agent_can_read (sensitivity_of node) (agent_max_sensitivity policies)

module _ {S : Type 0} (cs : ContextStore S) (rt : Runtime) (policies : PolicyConfig)
    (actor : ActorContext) where
  pub get_node-redacted :
      (id : String) (s : AppState S) (node : ContextNode)
      → actor.actor_type ≡ agent
      → has_role actor reader ≡ true
      → cs.get_node (record { id = id; namespace = none }) s.store ≡ some node
      → readable policies node ≡ false
      → (get_node cs rt policies actor id s).0 ≡ ok (redacted (redact cs rt policies actor node))
  unfolding get_node
  get_node-redacted id s node a r found hidden = ground arith

  -- The answer to an agent with the reader role about a node above the level that agents may read
  -- is the same for any two states whose nodes agree on id, type, status and level.
  pub get_node-hides :
      (id : String) (s t : AppState S) (n m : ContextNode)
      → actor.actor_type ≡ agent
      → has_role actor reader ≡ true
      → cs.get_node (record { id = id; namespace = none }) s.store ≡ some n
      → cs.get_node (record { id = id; namespace = none }) t.store ≡ some m
      → SameOutside n m
      → readable policies n ≡ false
      → (get_node cs rt policies actor id s).0 ≡ (get_node cs rt policies actor id t).0
  get_node-hides id s t n m a r in_s in_t same hidden =
      let hidden' : readable policies m ≡ false = rw same.sensitivity at hidden in
      get_node-redacted id s n a r in_s hidden
      ∙ (rw (same.id, same.node_type, same.status, same.sensitivity) refl
          ∙ sym (get_node-redacted id t m a r in_t hidden'))

  screen-kept :
      (nodes : List ContextNode) (n : ℕ) (s : S)
      → (screen cs rt policies actor (agent_max_sensitivity policies) n nodes s).0
        ≡ retain (readable policies) nodes
  unfolding screen
  screen-kept [] n s = refl
  screen-kept (node ∷ nodes) n s = elim (Bool-cases (readable policies node)) [
    | inl shown ↦ rw shown (ap (λ xs. node ∷ xs) (screen-kept nodes _ _))
    | inr hidden ↦ rw hidden (screen-kept nodes n s)
  ]

  filter_for_agent-kept :
      (nodes : List ContextNode) (s : AppState S)
      → (filter_for_agent cs rt policies actor nodes s).0 ≡ ok (retain (readable policies) nodes)
  unfolding filter_for_agent
  filter_for_agent-kept nodes s = ap ok (screen-kept nodes 0 s.store)

  visible_page-agent :
      (page : NodeQueryResult) (s : AppState S)
      → actor.actor_type ≡ agent
      → (visible_page cs rt policies actor page s).0
        ≡ ok (record page { nodes = retain (readable policies) page.nodes })
  visible_page-agent page s a = ground (arith, filter_for_agent-kept page.nodes s)

  -- A page of nodes that is answered to an agent is the page of the store with exactly the nodes
  -- that the agent may read, in their order, and with the totals of the store: the other nodes are
  -- dropped without a stub.
  pub query_nodes-agent :
      (trim : String → String) (params : NodeQueryParams) (s s' : AppState S)
      (shown : NodeQueryResult)
      → actor.actor_type ≡ agent
      → query_nodes cs rt policies actor trim params s ≡ some (ok shown, s')
      → (page : NodeQueryResult) × (cs.query_nodes rt (query_of trim params) s.store ≡ some page)
        × (shown ≡ record page { nodes = retain (readable policies) page.nodes })
  unfolding query_nodes
  query_nodes-agent trim params s s' shown a h = elim (Bool-cases (has_role actor reader)) [
    | inl may ↦ elim (Option-cases (cs.query_nodes rt (query_of trim params) s.store)) [
      | inl panic ↦ ground arith
      | inr (page, found) ↦ (page, found, ground (arith, visible_page-agent page s a))
    ]
    | inr low ↦ ground arith
  ]
