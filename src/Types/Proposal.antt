-- ===== src/Types/Proposal.antt =====
-- server/src/types/proposal.rs: proposals, their operations, comments and reviews.
use context_first_docs.Prelude.{
  ℕ, String, Option, List, Bool, true, false, PartialEq, ◌≡◌, ◌↔◌, arith,
}
use context_first_docs.Prelude.Map.{Map}
use context_first_docs.Types.Json.{Json}
use context_first_docs.Types.Node.{ContextNode, NodeId, NodeStatus}

pub data ProposalStatus : Type 0 where
  «open» accepted rejected withdrawn applied : ProposalStatus

abbrev pub status_beq : ProposalStatus → ProposalStatus → Bool
status_beq «open» «open» = true
status_beq accepted accepted = true
status_beq rejected rejected = true
status_beq withdrawn withdrawn = true
status_beq applied applied = true
status_beq _ _ = false

pub status_beq_iff : (a b : ProposalStatus) → (status_beq a b ≡ true) ↔ (a ≡ b)
status_beq_iff a b = ground arith

instance abbrev pub status_eq : PartialEq ProposalStatus
status_eq = record { same = status_beq; same_iff = status_beq_iff }

pub record ProposalMetadata : Type 0 where
  pub created_at : String
  pub created_by : String
  pub modified_at : String
  pub modified_by : String
  pub rationale : Option String
  pub required_approvers : Option (List String)
  pub approved_by : Option (List String)
  pub base_versions : Option (Map ℕ)

pub record UpdateChanges : Type 0 where
  pub content : Option String
  pub status : Option NodeStatus
  pub extra : Option (Map Json)

pub data Operation : Type 0 where
  create : (id : String) (order : ℕ) → ContextNode → Operation
  update : (id : String) (order : ℕ) → NodeId → UpdateChanges → Operation
  delete : (id : String) (order : ℕ) → NodeId → Option String → Operation
  status_change :
      (id : String) (order : ℕ)
      → NodeId
      → (new_status old_status : NodeStatus) → Option String
      → Operation

-- The `order` field, which every variant has.
abbrev pub order_of : Operation → ℕ
order_of (create id order node) = order
order_of (update id order node_id changes) = order
order_of (delete id order node_id reason) = order
order_of (status_change id order node_id new_status old_status reason) = order

pub record AppliedMetadata : Type 0 where
  pub applied_at : String
  pub applied_by : String
  pub applied_from_review_id : Option String
  pub applied_from_proposal_id : String
  pub applied_to_revision_id : String
  pub previous_revision_id : String

pub data CommentStatus : Type 0 where
  «open» resolved : CommentStatus

pub record CommentRange : Type 0 where
  pub start : ℕ
  pub end : ℕ

pub record CommentAnchor : Type 0 where
  pub node_id : NodeId
  pub field : Option String
  pub range : Option CommentRange
  pub quote : Option String

-- The fields of a comment but its replies, which are comments again.
pub record CommentBody : Type 0 where
  pub id : String
  pub content : String
  pub author : String
  pub created_at : String
  pub status : Option CommentStatus
  pub resolved_at : Option String
  pub resolved_by : Option String
  pub operation_id : Option String
  pub anchor : Option CommentAnchor

mutual
  pub data Comment : Type 0 where
    comment : CommentBody → Replies → Comment

  -- `Option<Vec<Comment>>`
  pub data Replies : Type 0 where
    no_replies : Replies
    replies : Comments → Replies

  pub data Comments : Type 0 where
    nil : Comments
    cons : Comment → Comments → Comments

pub record Proposal : Type 0 where
  pub id : String
  pub status : ProposalStatus
  pub operations : List Operation
  pub metadata : ProposalMetadata
  pub comments : Option (List Comment)
  pub relations : Option (List String)
  pub applied : Option AppliedMetadata

pub data ReviewAction : Type 0 where
  accept reject request_changes : ReviewAction

abbrev pub action_beq : ReviewAction → ReviewAction → Bool
action_beq accept accept = true
action_beq reject reject = true
action_beq request_changes request_changes = true
action_beq _ _ = false

pub action_beq_iff : (a b : ReviewAction) → (action_beq a b ≡ true) ↔ (a ≡ b)
action_beq_iff a b = ground arith

instance abbrev pub action_eq : PartialEq ReviewAction
action_eq = record { same = action_beq; same_iff = action_beq_iff }

pub record Review : Type 0 where
  pub id : String
  pub proposal_id : String
  pub reviewer : String
  pub reviewer_role : Option String
  pub reviewed_at : String
  pub action : ReviewAction
  pub comment : Option String
  pub comments : Option (List Comment)
  pub operation_ids : Option (List String)
  pub is_approval : Option Bool
