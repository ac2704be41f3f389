-- ===== src/FileStore/Pages.antt =====
-- The pages of nodes of server/src/store/file_store.rs against those of in_memory.rs.
use context_first_docs.Prelude.{
  none, some, List, ◌≡◌, refl, arith, if◌then◌else◌, ltb, unwrap_or, min, length, take, drop, ◌+◌,
  ◌≤◌, contains, Bool-cases, inl, inr, length-take, length-drop, ap, ◌∙◌,
}
use context_first_docs.Prelude.Map
use context_first_docs.Types.Node.{ContextNode, node_status_eq}
use context_first_docs.Types.Query.{NodeQuery}
use context_first_docs.Runtime.{Runtime}
use context_first_docs.Store.Queries.{query_nodes, select_nodes, node_limit, node_page, retain_if}
use context_first_docs.Store.Queries.Pages.{take-stop, query_nodes-none, query_nodes-some}
use context_first_docs.FileStore.{FileStore}
use context_first_docs.FileStore.Calls
use context_first_docs.FileStore.Refinement.{memory}

-- What both stores select by the status.
abbrev selected : Runtime → NodeQuery → FileStore → List ContextNode
selected rt query s =
    retain_if query.status (λ ss (n : ContextNode). contains ss n.status)
      (rt.arrange_nodes (Map.values s.nodes))

module _ (rt : Runtime) (query : NodeQuery) (s : FileStore) (only_type : query.type ≡ none)
    (only_search : query.search ≡ none) where
  select_nodes-selected : select_nodes rt query (memory s) ≡ selected rt query s
  unfolding select_nodes
  select_nodes-selected = rw (only_type, only_search) refl

  page_agrees :
      unwrap_or query.offset 0 ≤ length (selected rt query s)
      → node_page query
          (selected rt query s)
          (take (node_limit query) (drop (unwrap_or query.offset 0) (selected rt query s)))
        ≡ Calls.query_nodes rt query s
  unfolding Calls.query_nodes
  page_agrees inside =
      let offset = unwrap_or query.offset 0 in
      let xs = selected rt query s in
      let start : min offset (length xs) ≡ offset = omega (arith, inside) in
      let stop : offset + length (take (node_limit query) (drop offset xs))
          ≡ min (offset + node_limit query) (length xs) =
        omega
          (arith, inside, length-take (node_limit query) (drop offset xs), length-drop offset xs) in
      rw (start, take-stop xs offset (node_limit query), stop) refl

  -- For a query that names neither types nor a search, the in-memory store with the same content
  -- gives the page of nodes that the file store gives, unless the offset is beyond the nodes
  -- selected, where it ends in a panic.
  pub query_nodes-agrees : query_nodes rt query (memory s) ≡ (
      if ltb (Calls.query_nodes rt query s).total (unwrap_or query.offset 0)
      then none
      else some (Calls.query_nodes rt query s))
  query_nodes-agrees =
      let total : (Calls.query_nodes rt query s).total ≡ length (select_nodes rt query (memory s)) =
        unfold Calls.query_nodes in rw select_nodes-selected refl in
      elim (Bool-cases (ltb (Calls.query_nodes rt query s).total (unwrap_or query.offset 0))) [
        | inl beyond ↦ rw beyond ((query_nodes-none rt query (memory s)).1 (ground (arith, total)))
        | inr inside ↦ rw inside (
            query_nodes-some rt query (memory s) (ground (arith, total))
            ∙ rw select_nodes-selected
                (ap some (page_agrees (ground (arith, total, select_nodes-selected)))))
      ]
