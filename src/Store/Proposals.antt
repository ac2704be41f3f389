-- ===== src/Store/Proposals.antt =====
-- The operations on proposals of server/src/store/in_memory.rs but `apply_proposal`.
pub mod Frame
pub mod Status
use Prim.Native.String.{◌++◌}
use context_first_docs.Prelude.{
  String, Option, none, some, List, [], ◌∷◌, Bool, true, false, Result, ok, err, ◌>>=◌,
  if◌then◌else◌, ◌==◌, string_eq, not, unwrap_or,
}
use mathlib.Core.List
use context_first_docs.Prelude.Map
use context_first_docs.Types.Json.{Json, get_field, as_object, as_array, get_str}
use context_first_docs.Types.Proposal.{
  Proposal, ProposalStatus, accepted, rejected, withdrawn, status_eq, Comment, Review, ReviewAction,
  accept, reject, request_changes,
}
use context_first_docs.Runtime.{Runtime}
use context_first_docs.Store.{StoreError, not_found, conflict, invalid, InMemoryStore, Method}

unfoldable pub get_proposal : String → InMemoryStore → Option Proposal
get_proposal id s = Map.get id s.proposals

unfoldable pub create_proposal : Proposal → Method InMemoryStore (Unit {0})
create_proposal p s =
    if Map.contains_key p.id s.proposals
    then (err (conflict ("proposal " ++ (p.id ++ " already exists"))), s)
    else (ok tt, record s { proposals = Map.insert p.id p s.proposals })

-- `get_mut` on the proposals: the change is written back if there is one.
abbrev pub with_proposal :
    String → (Proposal → Result StoreError Proposal) → Method InMemoryStore (Unit {0})
with_proposal id change s = elim (Map.get id s.proposals) [
  | none ↦ (err (not_found ("proposal " ++ id)), s)
  | some p ↦ elim (change p) [
    | err e ↦ (err e, s)
    | ok p' ↦ (ok tt, record s { proposals = Map.adjust id (λ _. p') s.proposals })
  ]
]

-- The text of a status in a PATCH.
unfoldable pub parse_status : String → Result StoreError ProposalStatus
parse_status s =
    if s == "applied"
    then err (invalid "cannot set status to applied via PATCH; use POST /proposals/:id/apply")
    else if s == "open"
    then ok ProposalStatus.«open»
    else if s == "accepted"
    then ok accepted
    else if s == "rejected"
    then ok rejected
    else if s == "withdrawn"
    then ok withdrawn
    else err (invalid ("unknown status " ++ s))

pub set_status : Option String → Proposal → Result StoreError Proposal
set_status none p = ok p
set_status (some s) p = do status ← parse_status s; ok (record p { status = status })

set_modified_at : Option String → Proposal → Proposal
set_modified_at none p = p
set_modified_at (some v) p = record p { metadata = record p.metadata { modified_at = v } }

set_modified_by : Option String → Proposal → Proposal
set_modified_by none p = p
set_modified_by (some v) p = record p { metadata = record p.metadata { modified_by = v } }

set_metadata : Option Json → Proposal → Proposal
set_metadata none p = p
set_metadata (some m) p =
    set_modified_by (get_str m "modified_by") (set_modified_at (get_str m "modified_at") p)

set_comments : Option (List Comment) → Proposal → Proposal
set_comments none p = p
set_comments (some cs) p = record p { comments = some cs }

abbrev and_then : Option Json → (Json → Option Json) → Option Json
and_then none f = none
and_then (some v) f = f v

abbrev read_comments : Runtime → Option Json → Option (List Comment)
read_comments rt none = none
read_comments rt (some v) = rt.parse_comments v

-- The fields that a PATCH sets after the status.
pub patch_rest : Runtime → Json → Proposal → Proposal
patch_rest rt updates p =
    set_comments (read_comments rt (and_then (get_field updates "comments") as_array))
      (set_metadata (and_then (get_field updates "metadata") as_object) p)

-- The body of `update_proposal` for one proposal. A refused status leaves it as it was.
unfoldable pub patch : Runtime → Json → Proposal → Result StoreError Proposal
patch rt updates p = do p' ← set_status (get_str updates "status") p; ok (patch_rest rt updates p')

unfoldable pub update_proposal : Runtime → String → Json → Method InMemoryStore (Unit {0})
unfolding patch set_status parse_status patch_rest set_metadata set_modified_at set_modified_by
    set_comments
update_proposal rt id updates = with_proposal id (patch rt updates)

-- What a review makes of the status of an open proposal.
abbrev pub reviewed : ReviewAction → ProposalStatus → ProposalStatus
reviewed accept s = accepted
reviewed reject s = rejected
reviewed request_changes s = s

abbrev pub review_proposal : Review → Proposal → Result StoreError Proposal
review_proposal r p =
    if not (p.status == ProposalStatus.«open»)
    then err (invalid "proposal is not open for review")
    else ok (record p { status = reviewed r.action p.status })

-- `reviews.entry(proposal_id).or_default().push(review)`, after a status change that succeeded
abbrev pub record_review :
    Review
    → Result StoreError (Unit {0}) × InMemoryStore
    → Result StoreError (Unit {0}) × InMemoryStore
record_review r (err e, s) = (err e, s)
record_review r (ok done, s) = (
  ok tt,
  record s {
    reviews =
        Map.insert r.proposal_id
          (List.◌++◌ (unwrap_or (Map.get r.proposal_id s.reviews) []) (r ∷ [])) s.reviews;
  },
)

unfoldable pub submit_review : Review → Method InMemoryStore (Unit {0})
submit_review r s = record_review r (with_proposal r.proposal_id (review_proposal r) s)

abbrev pub withdraw : Proposal → Result StoreError Proposal
withdraw p =
    if not (p.status == ProposalStatus.«open»)
    then err (invalid "only open proposals (draft/submitted/changes_requested) can be withdrawn")
    else ok (record p { status = withdrawn })

unfoldable pub withdraw_proposal : String → Method InMemoryStore (Unit {0})
withdraw_proposal id = with_proposal id withdraw

unfoldable pub get_review_history : String → InMemoryStore → List Review
get_review_history id s = unwrap_or (Map.get id s.reviews) []

unfoldable pub get_proposal_comments : String → InMemoryStore → List Comment
get_proposal_comments id s = elim (Map.get id s.proposals) [
  | none ↦ []
  | some p ↦ unwrap_or p.comments []
]

abbrev pub push_comment : Comment → Proposal → Result StoreError Proposal
push_comment c p = ok (record p { comments = some (List.◌++◌ (unwrap_or p.comments []) (c ∷ [])) })

unfoldable pub add_proposal_comment : String → Comment → Method InMemoryStore (Unit {0})
add_proposal_comment id c = with_proposal id (push_comment c)
