-- ===== src/Tests.antt =====
-- Runs of the model at concrete inputs, and the properties applied to them.
mod Data
mod Formats
mod Files
mod Server
mod Visits
mod Application
mod Histories
mod Reads
mod Decisions
mod Requests
