-- ===== src/Api/Nodes.antt =====
-- The routes of server/src/api/routes.rs on nodes, with the redaction for agents. `none` is a panic.
use Prim.Native.Char.{code}
use Prim.Native.String
use context_first_docs.Prelude.{
  ℕ, String, Option, none, some, List, [], ◌∷◌, Bool, ◌+◌, Result, ok, err, if◌then◌else◌, ltb,
  ◌==◌, nat_eq, string_eq, filter_map, unwrap_or,
}
use context_first_docs.Types.Json.{Json, num, str, object, obj, field, end}
use context_first_docs.Types.Node.{
  ContextNode, NodeId, NodeType, NodeStatus, accepted, proposed, rejected, superseded, key,
}
use context_first_docs.Types.Query.{NodeQuery, any_node, NodeQueryResult}
use context_first_docs.Types.Audit.{AuditEvent, success, denied, sensitive_read, with_details}
use context_first_docs.Sensitivity.{
  Sensitivity, internal, confidential, at_most, sensitivity_str, agent_can_read,
}
use context_first_docs.Runtime.{Runtime}
use context_first_docs.Policy.{PolicyConfig, agent_max_sensitivity}
use context_first_docs.Auth.{ActorContext, agent, actor_type_eq, reader, require_role}
use context_first_docs.Store.AuditLog.{any_event}
use context_first_docs.Store.Interface.{ContextStore}
use context_first_docs.Api.{
  AppState, ApiError, Handler, ◌>>=◌, ◌>>◌, pure, raise, gets, ignore, check, event_of,
}

-- What an agent sees of a node: all of it, or what the redaction leaves.
pub record Redacted : Type 0 where
  pub id : NodeId
  pub node_type : NodeType
  pub status : NodeStatus
  pub reason : String
  pub sensitivity : String

pub data NodeResponse : Type 0 where
  full : ContextNode → NodeResponse
  redacted : Redacted → NodeResponse

-- `node.metadata.sensitivity.unwrap_or(Internal)`
abbrev pub sensitivity_of : ContextNode → Sensitivity
sensitivity_of node = unwrap_or node.metadata.sensitivity internal

abbrev pub is_sensitive : Sensitivity → Bool
is_sensitive s = at_most confidential s

-- The statuses of the query string, as far as the server knows them.
abbrev pub status_named : String → Option NodeStatus
status_named x =
    if x == "accepted"
    then some accepted
    else if x == "proposed"
    then some proposed
    else if x == "rejected"
    then some rejected
    else if x == "superseded"
    then some superseded
    else none

-- `s.split(',')`
split_commas_from : String → String → List String
split_commas_from cur String.[] = cur ∷ []
split_commas_from cur (String.◌∷◌ c s) =
    let closed = split_commas_from "" s in
    let longer = split_commas_from (String.◌++◌ cur (String.◌∷◌ c String.[])) s in
    if code c == b',' then cur ∷ closed else longer

abbrev known : List NodeStatus → Option (List NodeStatus)
known [] = none
known (s ∷ ss) = some (s ∷ ss)

-- `trim` is `str::trim`, by the Unicode table of white space.
unfoldable pub parse_statuses : (String → String) → Option String → Option (List NodeStatus)
unfolding split_commas_from
parse_statuses trim none = none
parse_statuses trim (some s) =
    known (filter_map (λ x. status_named (trim x)) (split_commas_from "" s))

-- `NodeQueryParams`
pub record NodeQueryParams : Type 0 where
  pub status : Option String
  pub limit : Option ℕ
  pub offset : Option ℕ

abbrev pub query_of : (String → String) → NodeQueryParams → NodeQuery
query_of trim params = record any_node {
  status = parse_statuses trim params.status;
  limit = params.limit;
  offset = params.offset;
}

-- `ProvenanceResponse`
pub record ProvenanceResponse : Type 0 where
  pub resource_id : String
  pub events : List AuditEvent

module _ {S : Type 0} (cs : ContextStore S) (rt : Runtime) (policies : PolicyConfig)
    (actor : ActorContext) where
  abbrev sensitivity_details : Sensitivity → Json
  sensitivity_details s = object "nodeSensitivity" (str (sensitivity_str s))

  abbrev read_event : ℕ → String → AuditEvent
  read_event n id = event_of rt n actor sensitive_read id success

  -- The loop of `query_nodes` for an agent, from the `n`-th event: what the agent may read, with a
  -- record of each sensitive read, and the number of the others.
  unfoldable pub screen : Sensitivity → ℕ → List ContextNode → S → List ContextNode × ℕ × ℕ × S
  unfolding agent_can_read
  screen most n [] s = ([], 0, n, s)
  screen most n (node ∷ nodes) s =
      if agent_can_read (sensitivity_of node) most
      then (let s' =
            if is_sensitive (sensitivity_of node)
            then (cs.append_audit (read_event n (key node.id)) s).1
            else s in
          let n' = if is_sensitive (sensitivity_of node) then n + 1 else n in
          let (kept, dropped, m, s'') = screen most n' nodes s' in (node ∷ kept, dropped, m, s''))
      else (let (kept, dropped, m, s') = screen most n nodes s in (kept, dropped + 1, m, s'))

  abbrev pub denied_event : Sensitivity → ℕ → ℕ → AuditEvent
  denied_event most n dropped =
      with_details (event_of rt n actor sensitive_read "query_nodes" denied) (
        obj (
          field "redactedCount" (num dropped)
            (field "agentMaxSensitivity" (str (sensitivity_str most)) end)))

  unfoldable pub filter_for_agent : List ContextNode → Handler S (List ContextNode)
  unfolding screen
  filter_for_agent nodes s =
      let most = agent_max_sensitivity policies in
      let (kept, dropped, n, store) = screen most 0 nodes s.store in
      let store' =
        if ltb 0 dropped then (cs.append_audit (denied_event most n dropped) store).1 else store in
      (ok kept, record s { store = store' })

  abbrev pub visible_page : NodeQueryResult → Handler S NodeQueryResult
  visible_page r =
      if actor.actor_type == agent
      then (do nodes ← filter_for_agent r.nodes; pure (record r { nodes = nodes }))
      else pure r

  -- `query_nodes`; the response has the fields of the store's result
  unfoldable pub query_nodes :
      (String → String)
      → NodeQueryParams
      → AppState S
      → Option (Result ApiError NodeQueryResult × AppState S)
  unfolding require_role filter_for_agent
  query_nodes trim params s = elim (require_role actor reader) [
    | err f ↦ some (err (ApiError.forbidden f), s)
    | ok passed ↦ elim (cs.query_nodes rt (query_of trim params) s.store) [
      | none ↦ none
      | some r ↦ some (visible_page r s)
    ]
  ]

  abbrev pub redact : ContextNode → Redacted
  redact node = record {
    id = node.id;
    node_type = node.node_type;
    status = node.status;
    reason = "sensitivity";
    sensitivity = sensitivity_str (sensitivity_of node);
  }

  abbrev refused_details : Sensitivity → Json
  refused_details s = obj (
      field "nodeSensitivity" (str (sensitivity_str s))
        (field "agentMaxSensitivity" (str (sensitivity_str (agent_max_sensitivity policies))) end))

  abbrev show_to_agent : String → ContextNode → Handler S NodeResponse
  show_to_agent id node =
      if agent_can_read (sensitivity_of node) (agent_max_sensitivity policies)
      then (if is_sensitive (sensitivity_of node)
          then (do
            ignore (
                cs.append_audit
                  (with_details (read_event 0 id) (sensitivity_details (sensitivity_of node))))
            pure (full node))
          else pure (full node))
      else do
        ignore (
            cs.append_audit (
              with_details (event_of rt 0 actor sensitive_read id denied)
                (refused_details (sensitivity_of node))))
        pure (redacted (redact node))

  abbrev pub show : String → Option ContextNode → Handler S NodeResponse
  show id none = raise (ApiError.not_found (String.◌++◌ "node " (String.◌++◌ id " not found")))
  show id (some node) =
      if actor.actor_type == agent then show_to_agent id node else pure (full node)

  unfoldable pub get_node : String → Handler S NodeResponse
  unfolding require_role agent_can_read
  get_node id = do
    check (require_role actor reader)
    found ← gets (cs.get_node (record { id = id; namespace = none }))
    show id found

  unfoldable pub get_provenance : String → Handler S ProvenanceResponse
  unfolding require_role
  get_provenance id = do
    check (require_role actor reader)
    events ← gets (cs.query_audit (record any_event { resource_id = some id }) (some 1000) none)
    pure (record { resource_id = id; events = events })
