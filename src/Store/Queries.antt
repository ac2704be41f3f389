-- ===== src/Store/Queries.antt =====
-- The queries of server/src/store/in_memory.rs. `none` is a panic: a slice out of range.
pub mod Pages
use text.Mathlib.Text.{find?}
use context_first_docs.Prelude.{
  ℕ, String, Option, none, some, List, [], ◌∷◌, Bool, true, ◌||◌, ◌+◌, ◌-◌, min, if◌then◌else◌, ltb,
  unwrap_or, is_some_and, length, take, drop, retain, contains,
}
use context_first_docs.Prelude.Map
use context_first_docs.Types.Node.{NodeId, ContextNode, accepted, key, node_status_eq, node_type_eq}
use context_first_docs.Types.Proposal.{Proposal, ProposalStatus, status_eq}
use context_first_docs.Types.Query.{
  NodeQuery, any_node, NodeQueryResult, ProposalQuery, any_proposal,
}
use context_first_docs.Runtime.{Runtime}
use context_first_docs.Store.{InMemoryStore}

unfoldable pub get_node : NodeId → InMemoryStore → Option ContextNode
get_node node_id s = Map.get (key node_id) s.nodes

-- One `if let Some(..) = query.f { list.retain(..) }`
abbrev pub retain_if : {A B : Type 0} → Option B → (B → A → Bool) → List A → List A
retain_if none p xs = xs
retain_if (some b) p xs = retain (p b) xs

-- `str::contains`
abbrev pub text_contains : String → String → Bool
text_contains s t = is_some_and (find? s t) (λ _. true)

abbrev pub mentions : Runtime → String → ContextNode → Bool
mentions rt s n =
    text_contains (rt.to_lowercase n.content) s
    || (is_some_and n.title (λ t. text_contains (rt.to_lowercase t) s)
        || is_some_and n.description (λ d. text_contains (rt.to_lowercase d) s))

-- The nodes that a query selects, in the order of the iteration.
unfoldable pub select_nodes : Runtime → NodeQuery → InMemoryStore → List ContextNode
select_nodes rt query s =
    retain_if query.search (λ t n. mentions rt (rt.to_lowercase t) n)
      (retain_if query.type (λ ts n. contains ts n.node_type)
        (retain_if query.status (λ ss n. contains ss n.status)
          (rt.arrange_nodes (Map.values s.nodes))))

-- `xs[from..to]`
abbrev pub slice : {A : Type 0} → List A → ℕ → ℕ → Option (List A)
slice xs from to =
    if ltb to from
    then none
    else if ltb (length xs) to
    then none
    else some (take (to - from) (drop from xs))

abbrev pub node_limit : NodeQuery → ℕ
node_limit query = min (unwrap_or query.limit 50) 1000

abbrev pub node_page : NodeQuery → List ContextNode → List ContextNode → NodeQueryResult
node_page query all page =
    let offset = unwrap_or query.offset 0 in
    record {
      nodes = page;
      total = length all;
      limit = node_limit query;
      offset = offset;
      has_more = ltb (offset + length page) (length all);
    }

unfoldable pub query_nodes : Runtime → NodeQuery → InMemoryStore → Option NodeQueryResult
query_nodes rt query s =
    let all = select_nodes rt query s in
    let offset = unwrap_or query.offset 0 in
    elim (slice all offset (min (offset + node_limit query) (length all))) [
      | none ↦ none
      | some page ↦ some (node_page query all page)
    ]

unfoldable pub query_proposals : Runtime → ProposalQuery → InMemoryStore → List Proposal
query_proposals rt query s = take (unwrap_or query.limit 50) (
    drop (unwrap_or query.offset 0) (
      retain_if query.status (λ ss (p : Proposal). contains ss p.status)
        (rt.arrange_proposals (Map.values s.proposals))))

unfoldable pub get_accepted_nodes : Runtime → InMemoryStore → Option (List ContextNode)
get_accepted_nodes rt s =
    elim (query_nodes rt (record any_node { status = some (accepted ∷ []) }) s) [
      | none ↦ none
      | some r ↦ some r.nodes
    ]

unfoldable pub get_open_proposals : Runtime → InMemoryStore → List Proposal
get_open_proposals rt s =
    query_proposals rt (record any_proposal { status = some (ProposalStatus.«open» ∷ []) }) s
