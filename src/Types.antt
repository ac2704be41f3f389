-- ===== src/Types.antt =====
-- server/src/types: the data that the server stores, returns and exchanges.
pub mod Json
pub mod Node
pub mod Proposal
pub mod Audit
pub mod Query
pub mod Conflicts
