-- ===== src/Store/Queries/Pages.antt =====
-- The pages that the queries of server/src/store/in_memory.rs return.
use context_first_docs.Prelude.{
  ℕ, ◌+◌, ◌-◌, zero, suc, ◌≤◌, ◌<◌, min, Option, none, some, List, [], ◌∷◌, ◌≡◌, ◌↔◌, refl, ap,
  arith, Bool, true, unwrap_or, length, take, drop, retain, length-take, length-drop, All,
  All-retain, All-take, All-drop, Option-cases, inl, inr, contains,
}
use context_first_docs.Prelude.Map
use context_first_docs.Types.Node.{ContextNode, NodeStatus, accepted, node_status_eq}
use context_first_docs.Types.Proposal.{Proposal, ProposalStatus, status_eq}
use context_first_docs.Types.Query.{NodeQuery, any_node, NodeQueryResult}
use context_first_docs.Runtime.{Runtime}
use context_first_docs.Store.{InMemoryStore}
use context_first_docs.Store.Queries.{
  select_nodes, slice, node_limit, node_page, query_nodes, get_accepted_nodes, get_open_proposals,
  query_proposals, retain_if,
}

slice-none_iff :
    {A : Type 0} (xs : List A) (from to : ℕ)
    → to ≤ length xs
    → (slice xs from to ≡ none) ↔ (to < from)
slice-none_iff xs from to h = ground arith

slice-some :
    {A : Type 0} (xs : List A) (from to : ℕ) {page : List A}
    → slice xs from to ≡ some page
    → (from ≤ to) × (to ≤ length xs) × (page ≡ take (to - from) (drop from xs))
slice-some xs from to h = ground arith

take-length : {A : Type 0} (n : ℕ) (xs : List A) → take (min n (length xs)) xs ≡ take n xs
take-length zero xs = let e : min 0 (length xs) ≡ 0 = omega arith in rw e refl
take-length (suc n) [] = let e : min (suc n) 0 ≡ 0 = omega arith in rw e refl
take-length (suc n) (x ∷ xs) =
    let e : min (suc n) (suc (length xs)) ≡ suc (min n (length xs)) = omega arith in
    rw e (ap (λ ys. x ∷ ys) (take-length n xs))

pub take-stop :
    {A : Type 0} (xs : List A) (from limit : ℕ)
    → take (min (from + limit) (length xs) - from) (drop from xs) ≡ take limit (drop from xs)
take-stop xs from limit =
    let e : min (from + limit) (length xs) - from ≡ min limit (length (drop from xs)) =
      omega (arith, length-drop from xs) in
    rw e (take-length limit (drop from xs))

module _ (rt : Runtime) (query : NodeQuery) (s : InMemoryStore) where
  abbrev pub start : ℕ
  start = unwrap_or query.offset 0

  abbrev pub total : ℕ
  total = length (select_nodes rt query s)

  abbrev stop : ℕ
  stop = min (start + node_limit query) total

  -- A query of nodes ends in a panic exactly when its offset is beyond the number of selected
  -- nodes.
  pub query_nodes-none : (query_nodes rt query s ≡ none) ↔ (total < start)
  unfolding query_nodes
  query_nodes-none = ground arith

  pub query_nodes-some :
      start ≤ total
      → query_nodes rt query s
        ≡ some (
            node_page query
              (select_nodes rt query s)
              (take (node_limit query) (drop start (select_nodes rt query s))))
  unfolding query_nodes
  query_nodes-some h = ground (arith, take-stop (select_nodes rt query s) start (node_limit query))

  -- A page of nodes is the part of the selected nodes that the offset and the limit ask for, with
  -- as many as are left up to the limit, which is fifty unless one is named and 1000 at most, and
  -- has_more says whether any stand behind it.
  pub query_nodes-page :
      (r : NodeQueryResult)
      → query_nodes rt query s ≡ some r
      → (r.nodes ≡ take r.limit (drop start (select_nodes rt query s)))
        × (length r.nodes ≡ min r.limit (total - start))
        × (r.total ≡ total)
        × (r.limit ≡ min (unwrap_or query.limit 50) 1000)
        × ((r.has_more ≡ true) ↔ (start + r.limit < total))
  query_nodes-page r h =
      let inside : start ≤ total = ground (arith, query_nodes-none.1) in
      let e : node_page query (select_nodes rt query s)
            (take (node_limit query) (drop start (select_nodes rt query s)))
          ≡ r =
        cc (h, query_nodes-some inside) in
      let n = length-take (node_limit query) (drop start (select_nodes rt query s)) in
      let m = length-drop start (select_nodes rt query s) in
      rw (← e) (refl, omega arith, refl, refl, ground arith)

All-retain_if :
    {A B : Type 0} (P : A → Type 0) (o : Option B) (p : B → A → Bool) (xs : List A)
    → All P xs
    → All P (retain_if o p xs)
All-retain_if P none p xs h = h
All-retain_if P (some b) p [] h = tt
All-retain_if P (some b) p (x ∷ xs) (h, hs) = ground (arith, All-retain_if P (some b) p xs hs)

All-weaken :
    {A : Type 0} (P Q : A → Type 0) (imp : (x : A) → P x → Q x) (xs : List A) → All P xs → All Q xs
All-weaken P Q imp [] h = tt
All-weaken P Q imp (x ∷ xs) (h, hs) = (imp x h, All-weaken P Q imp xs hs)

select_nodes-status :
    (rt : Runtime) (query : NodeQuery) (s : InMemoryStore) (ss : List NodeStatus)
    → query.status ≡ some ss
    → All (λ n. contains ss n.status ≡ true) (select_nodes rt query s)
unfolding select_nodes
select_nodes-status rt query s ss e = All-retain_if _ query.search _ _ (
    All-retain_if _ query.type _ _ (
      rw e (
        All-retain (λ (n : ContextNode). contains ss n.status)
          (rt.arrange_nodes (Map.values s.nodes)))))

-- Every node that a query with statuses returns has one of them.
pub query_nodes-status :
    (rt : Runtime) (query : NodeQuery) (s : InMemoryStore) (r : NodeQueryResult)
    (ss : List NodeStatus)
    → query.status ≡ some ss
    → query_nodes rt query s ≡ some r
    → All (λ n. contains ss n.status ≡ true) r.nodes
query_nodes-status rt query s r ss e h =
    let page = (query_nodes-page rt query s r h).0 in
    rw page
      (All-take _ r.limit _ (All-drop _ (start rt query s) _ (select_nodes-status rt query s ss e)))

-- The accepted nodes are found without a panic, all of them accepted, but never more than fifty.
pub get_accepted_nodes-found :
    (rt : Runtime) (s : InMemoryStore)
    → (nodes : List ContextNode) × (get_accepted_nodes rt s ≡ some nodes)
      × (length nodes ≤ 50)
      × All (λ n. n.status ≡ accepted) nodes
unfolding get_accepted_nodes
get_accepted_nodes-found rt s =
    let query = record any_node { status = some (accepted ∷ []) } in
    elim (Option-cases (query_nodes rt query s)) [
      | inl panic ↦ ground (arith, (query_nodes-none rt query s).0 panic)
      | inr (r, e) ↦
          let (same, count, all_of, most, more) = query_nodes-page rt query s r e in
          let all = query_nodes-status rt query s r (accepted ∷ []) refl e in
          (
            r.nodes,
            rw (e, get_accepted_nodes) refl,
            omega (arith, count, most),
            All-weaken _ _ (λ n h. ground arith) r.nodes all,
          )
    ]

-- No more than fifty proposals are found open, and all of those are.
pub get_open_proposals-found :
    (rt : Runtime) (s : InMemoryStore)
    → (length (get_open_proposals rt s) ≤ 50)
      × All (λ p. p.status ≡ ProposalStatus.«open») (get_open_proposals rt s)
unfolding get_open_proposals query_proposals
get_open_proposals-found rt s =
    let opened =
      retain (λ (p : Proposal). contains (ProposalStatus.«open» ∷ []) p.status)
        (rt.arrange_proposals (Map.values s.proposals)) in
    (
      omega (arith, length-take 50 opened),
      All-take _ 50 opened (
          All-weaken _ _ (λ p h. ground arith) opened
            (All-retain _ (rt.arrange_proposals (Map.values s.proposals)))),
    )
