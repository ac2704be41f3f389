-- ===== src/FileStore/Calls.antt =====
-- The calls of server/src/store/file_store.rs but `apply_proposal`.
use Prim.Native.String.{◌++◌}
use mathlib.Core.List
use context_first_docs.Prelude.{
  ℕ, String, Option, none, some, List, [], ◌∷◌, ◌+◌, ◌-◌, min, Result, ok, err, ◌==◌, string_eq,
  if◌then◌else◌, ltb, unwrap_or, take, drop, retain, length, contains, Bool, false,
}
use context_first_docs.Prelude.Map
use context_first_docs.Types.Json.{Json, get_str}
use context_first_docs.Types.Node.{NodeId, ContextNode, NodeStatus, node_status_eq, key}
use context_first_docs.Types.Proposal.{
  Proposal, ProposalStatus, accepted, rejected, withdrawn, applied, status_eq, Comment, Review,
}
use context_first_docs.Types.Audit.{AuditEvent}
use context_first_docs.Types.Query.{NodeQuery, NodeQueryResult, ProposalQuery}
use context_first_docs.Types.Conflicts.{ConflictDetectionResult, MergeResult}
use context_first_docs.Runtime.{Runtime}
use context_first_docs.Store.{StoreError, not_found, conflict, invalid, internal, Method}
use context_first_docs.Store.AuditLog.{AuditFilter, passes}
use context_first_docs.Store.Queries.{retain_if, node_limit}
use context_first_docs.Disk.{Disk, remove_dir_all, remove_file}
use context_first_docs.FileStore.{
  Codec, FileStore, nodes_dir, proposals_dir, reviews_dir, revision_file, Step, save_proposal,
  save_reviews, save_audit_log,
}

unfoldable pub get_node : NodeId → FileStore → Option ContextNode
get_node node_id s = Map.get (key node_id) s.nodes

-- `filtered[start..end]`, with `start` and `end` clamped to the list.
unfoldable pub query_nodes : Runtime → NodeQuery → FileStore → NodeQueryResult
query_nodes rt query s =
    let filtered =
      retain_if query.status (λ ss (n : ContextNode). contains ss n.status)
        (rt.arrange_nodes (Map.values s.nodes)) in
    let start = min (unwrap_or query.offset 0) (length filtered) in
    let end = min (start + node_limit query) (length filtered) in
    record {
      nodes = take (end - start) (drop start filtered);
      total = length filtered;
      limit = node_limit query;
      offset = unwrap_or query.offset 0;
      has_more = ltb end (length filtered);
    }

unfoldable pub get_proposal : String → FileStore → Option Proposal
get_proposal id s = Map.get id s.proposals

-- The query is not looked at.
unfoldable pub query_proposals : Runtime → ProposalQuery → FileStore → List Proposal
query_proposals rt query s = rt.arrange_proposals (Map.values s.proposals)

unfoldable pub get_review_history : String → FileStore → List Review
get_review_history id s = unwrap_or (Map.get id s.reviews) []

unfoldable pub get_proposal_comments : String → FileStore → List Comment
get_proposal_comments id s = []

unfoldable pub add_proposal_comment : String → Comment → Method FileStore (Unit {0})
add_proposal_comment id c s = (ok tt, s)

unfoldable pub get_accepted_nodes : Runtime → FileStore → List ContextNode
get_accepted_nodes rt s =
    retain (λ n. n.status == NodeStatus.accepted) (rt.arrange_nodes (Map.values s.nodes))

unfoldable pub get_open_proposals : Runtime → FileStore → List Proposal
get_open_proposals rt s =
    retain (λ p. p.status == ProposalStatus.«open») (rt.arrange_proposals (Map.values s.proposals))

unfoldable pub detect_conflicts : String → FileStore → ConflictDetectionResult
detect_conflicts id s = record { conflicts = []; mergeable = []; needs_resolution = [] }

unfoldable pub is_proposal_stale : String → FileStore → Bool
is_proposal_stale id s = false

unfoldable pub merge_proposals : List String → FileStore → Result StoreError MergeResult
merge_proposals ids s = err (internal "merge not yet implemented for file store")

-- The filters are those of the in-memory store.
unfoldable pub query_audit : AuditFilter → Option ℕ → Option ℕ → FileStore → List AuditEvent
query_audit f limit offset s =
    take (unwrap_or limit 100) (drop (unwrap_or offset 0) (retain (passes f) s.audit_log))

-- A step on the disk of a store.
abbrev pub on_disk : {A : Type 0} → Step A → Method FileStore A
on_disk step s = let (r, d) = step s.disk in (r, record s { disk = d })

abbrev insert_saved :
    Proposal → Result StoreError (Unit {0}) × FileStore → Result StoreError (Unit {0}) × FileStore
insert_saved p (err e, s) = (err e, s)
insert_saved p (ok done, s) = (ok tt, record s { proposals = Map.insert p.id p s.proposals })

abbrev file_status : String → ProposalStatus → ProposalStatus
file_status s old =
    if s == "open"
    then ProposalStatus.«open»
    else if s == "accepted"
    then accepted
    else if s == "rejected"
    then rejected
    else if s == "withdrawn"
    then withdrawn
    else if s == "applied"
    then applied
    else old

abbrev pub patched : Json → Proposal → Proposal
patched updates p = elim (get_str updates "status") [
  | none ↦ p
  | some s ↦ record p { status = file_status s p.status }
]

-- `{:?}` of a status
abbrev status_debug : ProposalStatus → String
status_debug ProposalStatus.«open» = "Open"
status_debug accepted = "Accepted"
status_debug rejected = "Rejected"
status_debug withdrawn = "Withdrawn"
status_debug applied = "Applied"

abbrev pub reviews_with : Review → FileStore → List Review
reviews_with r s = List.◌++◌ (unwrap_or (Map.get r.proposal_id s.reviews) []) (r ∷ [])

module _ (codec : Codec) where
  -- The file is written first.
  unfoldable pub create_proposal : Proposal → Method FileStore (Unit {0})
  create_proposal p s =
      if Map.contains_key p.id s.proposals
      then (err (conflict ("proposal " ++ (p.id ++ " already exists"))), s)
      else insert_saved p (on_disk (save_proposal codec s.root p) s)

  -- A proposal in the table takes its new value first, and is saved then.
  abbrev pub replace : String → Proposal → Method FileStore (Unit {0})
  replace id p s =
      on_disk (save_proposal codec s.root p)
        (record s { proposals = Map.adjust id (λ _. p) s.proposals })

  unfoldable pub update_proposal : String → Json → Method FileStore (Unit {0})
  update_proposal id updates s = elim (Map.get id s.proposals) [
    | none ↦ (err (not_found ("proposal " ++ id)), s)
    | some p ↦ replace id (patched updates p) s
  ]

  unfoldable pub submit_review : Review → Method FileStore (Unit {0})
  submit_review r s =
      on_disk (save_reviews codec s.root r.proposal_id (reviews_with r s))
        (record s { reviews = Map.insert r.proposal_id (reviews_with r s) s.reviews })

  unfoldable pub withdraw_proposal : String → Method FileStore (Unit {0})
  withdraw_proposal id s = elim (Map.get id s.proposals) [
    | none ↦ (err (not_found ("proposal " ++ id)), s)
    | some p ↦
        if p.status == ProposalStatus.«open»
        then replace id (record p { status = withdrawn }) s
        else (err (invalid ("cannot withdraw proposal in status " ++ status_debug p.status)), s)
  ]

  unfoldable pub append_audit : AuditEvent → Method FileStore (Unit {0})
  append_audit e s =
      let log = List.◌++◌ s.audit_log (e ∷ []) in
      on_disk (save_audit_log codec s.root log) (record s { audit_log = log })

-- `let _ = std::fs::…`: the result is not looked at.
abbrev removed : String → Disk → Disk
removed root d =
    (remove_file (revision_file root)
      (remove_dir_all (reviews_dir root)
        (remove_dir_all (proposals_dir root) (remove_dir_all (nodes_dir root) d).1).1).1).1

-- The audit log stays, in the store and on the disk.
unfoldable pub reset : Method FileStore (Unit {0})
reset s = (
  ok tt,
  record s {
    nodes = [];
    proposals = [];
    reviews = [];
    revision_counter = 0;
    disk = removed s.root s.disk;
  },
)
