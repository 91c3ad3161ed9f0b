-- ===== src/Models.antt =====
-- crates/mnemo-core/src/models: the data model and its access rules.
pub mod Classification
pub mod ApiKey
pub mod Region
pub mod View
pub mod Edge
pub mod Entity
pub mod Guardrail
pub mod Episode
pub mod Context
pub mod Counterfactual
pub mod Clarification
