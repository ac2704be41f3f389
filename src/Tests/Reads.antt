-- ===== src/Tests/Reads.antt =====
-- Queries, staleness and conflicts.
use context_first_docs.Prelude.{
  ◌+◌, ◌-◌, ◌<◌, min, none, some, [], ◌∷◌, ◌≡◌, ◌↔◌, refl, true, string_eq, length, take, drop, ok,
}
use context_first_docs.Prelude.Map
use context_first_docs.Types.Node.{accepted, key, node_status_eq}
use context_first_docs.Types.Proposal.{Proposal, ProposalStatus}
use context_first_docs.Types.Query.{NodeQuery, any_node, NodeQueryResult}
use context_first_docs.Types.Conflicts.{ConflictDetectionResult}
use context_first_docs.Store.Queries.{select_nodes, node_page, query_nodes}
use context_first_docs.Store.Queries.Pages.{total, query_nodes-page}
use context_first_docs.Store.Conflicts.{
  split_colon, key_to_node_id, operations_node_keys, other_open, conflict_with, detect_conflicts,
  is_proposal_stale,
}
use context_first_docs.Types.Json.{null, str}
use context_first_docs.Types.Conflicts.{MergeResult}
use mathlib.Core.List.Permᴰ
use context_first_docs.Store.Merge.{Place, push, merge_proposals}
use context_first_docs.Store.{InMemoryStore}
use context_first_docs.Store.Merge.Gathered.{conflict_at}
use context_first_docs.Tests.Data.{proposal, rewrite, rt, id_of, good, waiting, store}

abbrev second_page : NodeQuery
second_page = record any_node { status = some (accepted ∷ []); limit = some 1; offset = some 1 }

abbrev beyond : NodeQuery
beyond = record any_node { offset = some 3 }

reads : Unit {0}
unfolding query_nodes select_nodes Map.get detect_conflicts operations_node_keys other_open
    is_proposal_stale key
reads = tt

abbrev found_page : NodeQueryResult
found_page = node_page second_page (Map.values store.nodes) (drop 1 (Map.values store.nodes))

page_found : query_nodes rt second_page store ≡ some found_page
unfolding reads
page_found = refl

query_nodes-page_example :
    (found_page.nodes ≡ take 1 (drop 1 (select_nodes rt second_page store)))
    × (length found_page.nodes ≡ min 1 (total rt second_page store - 1))
    × (found_page.total ≡ total rt second_page store)
    × (1 ≡ min 1 1000)
    × ((found_page.has_more ≡ true) ↔ (1 + 1 < total rt second_page store))
query_nodes-page_example = query_nodes-page rt second_page store found_page page_found

good_is_stale : is_proposal_stale "good" store ≡ ok true
unfolding reads
good_is_stale = refl

abbrev clash : ConflictDetectionResult
clash = record {
  conflicts = conflict_with rt "good" (operations_node_keys good.operations) waiting ∷ [];
  mergeable = [];
  needs_resolution = "waiting" ∷ [];
}

plain_namespace : split_colon "team" ≡ none
unfolding split_colon
plain_namespace = refl

team_splits : key_to_node_id "team:a:b" ≡ some (record { id = "a:b"; namespace = some "team" })
unfolding key_to_node_id
team_splits = refl

-- Two nodes with one key.
keys_collide :
    key (record { id = "a:b"; namespace = none }) ≡ key (record { id = "b"; namespace = some "a" })
unfolding key
keys_collide = refl

abbrev wanted : Place
wanted = ("a", "content")

-- Both proposals want another content for `a`; only one has one for `b`.
abbrev merged : MergeResult
merged = record {
  merged = [];
  conflicts =
      record {
        field = "content";
        node_id = id_of "a";
        proposal1_value = str "first";
        proposal2_value = str "other";
      }
      ∷ [];
  auto_merged =
      record { node_id = id_of "b"; field = "content"; old_value = null; new_value = str "third" }
      ∷ [];
}

-- Three proposals, of which only the last wants another content for `a`.
abbrev three_wishes : InMemoryStore
three_wishes = record store {
  proposals =
      ("p1", proposal "p1" ProposalStatus.«open» (rewrite "a" 1 "same" ∷ []))
      ∷ ("p2", proposal "p2" ProposalStatus.«open» (rewrite "a" 1 "same" ∷ []))
      ∷ ("p3", proposal "p3" ProposalStatus.«open» (rewrite "a" 1 "other" ∷ []))
      ∷ [];
}

-- The conflict is shown with two equal values.
shown_equal :
    merge_proposals (λ t. t) ("p1" ∷ "p2" ∷ "p3" ∷ []) three_wishes
    ≡ ok (record {
      merged = [];
      conflicts = conflict_at wanted ("p1", "same") ("p2", "same") ∷ [];
      auto_merged = [];
    })
unfolding reads merge_proposals push key_to_node_id
shown_equal = refl
