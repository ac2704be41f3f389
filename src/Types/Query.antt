-- ===== src/Types/Query.antt =====
-- server/src/types/query.rs: queries on nodes and proposals, and a page of nodes.
use context_first_docs.Prelude.{ℕ, String, Option, none, List, Bool}
use context_first_docs.Types.Node.{ContextNode, NodeStatus, NodeType}
use context_first_docs.Types.Proposal.{ProposalStatus}

pub data SortOrder : Type 0 where
  asc desc : SortOrder

pub record NodeQuery : Type 0 where
  pub type : Option (List NodeType)
  pub status : Option (List NodeStatus)
  pub search : Option String
  pub tags : Option (List String)
  pub namespace : Option String
  pub created_by : Option String
  pub modified_by : Option String
  pub limit : Option ℕ
  pub offset : Option ℕ
  pub sort_by : Option String
  pub sort_order : Option SortOrder

-- `NodeQuery::default()`
abbrev pub any_node : NodeQuery
any_node = record {
  type = none;
  status = none;
  search = none;
  tags = none;
  namespace = none;
  created_by = none;
  modified_by = none;
  limit = none;
  offset = none;
  sort_by = none;
  sort_order = none;
}

pub record NodeQueryResult : Type 0 where
  pub nodes : List ContextNode
  pub total : ℕ
  pub limit : ℕ
  pub offset : ℕ
  pub has_more : Bool

pub record ProposalQuery : Type 0 where
  pub status : Option (List ProposalStatus)
  pub workspace_id : Option String
  pub created_by : Option String
  pub limit : Option ℕ
  pub offset : Option ℕ

-- `ProposalQuery::default()`
abbrev pub any_proposal : ProposalQuery
any_proposal = record {
  status = none;
  workspace_id = none;
  created_by = none;
  limit = none;
  offset = none;
}
