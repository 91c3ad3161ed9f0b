-- ===== src/Examples.antt =====
-- The theorems at concrete inputs.
mod Clocks
mod Sets
mod Maps
mod Policies
mod Guardrails
mod Traversals
mod Pipelines
mod Callers
mod Identities
mod Logs
mod Polls
mod Contexts
