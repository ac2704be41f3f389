-- ===== src/Api/Requests/Reading.antt =====
-- The handlers of server/src/api/routes.rs that read nodes keep what the methods of the store keep.
use context_first_docs.Prelude.{
  ℕ, String, Option, none, some, List, [], ◌∷◌, arith, Option-cases, inl, inr, ◌+◌, ◌==◌, string_eq,
}
use context_first_docs.Types.Node.{ContextNode, key}
use context_first_docs.Types.Audit.{success, sensitive_read}
use context_first_docs.Types.Query.{NodeQueryResult}
use context_first_docs.Runtime.{Runtime}
use context_first_docs.Sensitivity.{Sensitivity, agent_can_read}
use context_first_docs.Policy.{PolicyConfig, agent_max_sensitivity}
use context_first_docs.Auth.{ActorContext, reader, agent, actor_type_eq, require_role}
use context_first_docs.Store.Interface.{ContextStore}
use context_first_docs.Api.{AppState, pure, event_of}
use context_first_docs.Api.Nodes
use context_first_docs.Api.Nodes.{NodeQueryParams, sensitivity_of}
use context_first_docs.Api.Requests.{query_nodes, serve}
use context_first_docs.Api.Requests.Kept.{IsKept, Keeps, Holds, bind-Keeps, checked-Keeps, if-Keeps}

module _ {S : Type 0} (P : S → Type 0) (cs : ContextStore S) (rt : Runtime) (kept : IsKept cs rt P)
    (actor : ActorContext) (policies : PolicyConfig) where
  screen-Keeps :
      (most : Sensitivity) (n : ℕ) (nodes : List ContextNode) (s : S)
      → P s
      → P (Nodes.screen cs rt policies actor most n nodes s).3
  unfolding Nodes.screen
  screen-Keeps most n [] s h = h
  screen-Keeps most n (node ∷ nodes) s h =
      let e = event_of rt n actor sensitive_read (key node.id) success in
      ground (
        arith,
        screen-Keeps most n nodes s h,
        screen-Keeps most (n + 1) nodes (cs.append_audit e s).1 (kept.append_audit e s h),
      )

  filter_for_agent-Keeps :
      (nodes : List ContextNode) → Keeps P (Nodes.filter_for_agent cs rt policies actor nodes)
  unfolding Nodes.filter_for_agent
  filter_for_agent-Keeps nodes s h =
      let most = agent_max_sensitivity policies in
      let (page, dropped, n, store) = Nodes.screen cs rt policies actor most 0 nodes s.store in
      let screened = screen-Keeps most 0 nodes s.store h.0 in
      let e = Nodes.denied_event cs rt policies actor most n dropped in
      ground (arith, screened, kept.append_audit e store screened, h)

  visible_page-Keeps : (r : NodeQueryResult) → Keeps P (Nodes.visible_page cs rt policies actor r)
  visible_page-Keeps r =
      if-Keeps P (actor.actor_type == agent) _ (pure r)
        (bind-Keeps P (Nodes.filter_for_agent cs rt policies actor r.nodes)
          (λ nodes. pure (record r { nodes = nodes })) (filter_for_agent-Keeps r.nodes)
          (λ nodes s h. h))
        (λ s h. h)

  pub query_nodes-Keeps :
      (trim : String → String) (params : NodeQueryParams) (s : AppState S)
      → Holds P s
      → Holds P (serve cs policies trim rt actor (query_nodes params) s).1
  unfolding serve Nodes.query_nodes
  query_nodes-Keeps trim params s h =
      elim (Option-cases (cs.query_nodes rt (Nodes.query_of trim params) s.store)) [
        | inl missing ↦ ground (arith, h)
        | inr (r, found) ↦ ground (arith, h, visible_page-Keeps r s h)
      ]

  show-Keeps :
      (id : String) (found : Option ContextNode)
      → Keeps P (Nodes.show cs rt policies actor id found)
  show-Keeps id none s h = h
  show-Keeps id (some node) s h =
      if-Keeps P (actor.actor_type == agent) _ _
        (if-Keeps P (agent_can_read (sensitivity_of node) (agent_max_sensitivity policies)) _ _
          (if-Keeps P (Nodes.is_sensitive (sensitivity_of node)) _ _
            (λ s (h, unscoped). (kept.append_audit _ s.store h, unscoped)) (λ s h. h))
          (λ s (h, unscoped). (kept.append_audit _ s.store h, unscoped)))
        (λ s h. h) s h

  pub get_node-Keeps : (id : String) → Keeps P (Nodes.get_node cs rt policies actor id)
  unfolding Nodes.get_node
  get_node-Keeps id =
      checked-Keeps P (require_role actor reader) _
        (λ s h. show-Keeps id (cs.get_node (record { id = id; namespace = none }) s.store) s h)
