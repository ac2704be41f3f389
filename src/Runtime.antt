-- ===== src/Runtime.antt =====
-- What the server takes from outside its own source, for the handling of one request: the clock
-- (`chrono`), fresh identifiers (`uuid`), SHA-256 in hexadecimal (`sha2`), the derived reading of a
-- JSON array as comments (`serde`), the Unicode table of `to_lowercase`, and the order in which a
-- hash table or a hash set is iterated.
use context_first_docs.Prelude.{ℕ, String, Option, List}
use context_first_docs.Types.Json.{Json}
use context_first_docs.Types.Node.{ContextNode}
use context_first_docs.Types.Proposal.{Comment, Proposal}

pub record Runtime : Type 0 where
  -- the time of the request, RFC 3339
  pub now : String
  -- its day of the week, 1 = Monday to 7 = Sunday (`%u`), and its hour, 0 to 23 (`%H`)
  pub weekday : ℕ
  pub hour : ℕ
  pub fresh_id : ℕ → String
  pub sha256_hex : String → String
  pub parse_comments : Json → Option (List Comment)
  pub to_lowercase : String → String
  pub arrange_nodes : List ContextNode → List ContextNode
  pub arrange_proposals : List Proposal → List Proposal
  pub arrange_keys : List String → List String

-- `content_hash`: SHA-256, in hexadecimal, by the external library
unfoldable pub content_hash : Runtime → String → String
content_hash rt content = rt.sha256_hex content
