-- ===== src/Pipeline.antt =====
-- crates/mnemo-ingest/src/dag.rs: the steps of the pipeline, its configuration and its status.
-- The division of two u64 as f64 is a parameter of what uses it.
pub mod Order
pub mod Metrics
pub mod DeadLetters
pub mod Status
use mnemo.Base.{ℕ, Bool, true, false, List, [], ◌∷◌, ◌*◌, ◌^◌, ◌%◌, min, u64_mod}
use mnemo.Base.Order.{Text, codes}

pub data PipelineStep : Type 0 where
  ingest extract embed graph_update webhook_notify digest_invalidate : PipelineStep
  session_summarize : PipelineStep

unfoldable pub all_ordered : List PipelineStep
all_ordered =
    ingest ∷ extract ∷ embed ∷ graph_update ∷ webhook_notify ∷ digest_invalidate ∷ session_summarize
    ∷ []

unfoldable pub dependencies : PipelineStep → List PipelineStep
dependencies ingest = []
dependencies extract = ingest ∷ []
dependencies embed = extract ∷ []
dependencies graph_update = extract ∷ []
dependencies webhook_notify = graph_update ∷ []
dependencies digest_invalidate = graph_update ∷ []
dependencies session_summarize = embed ∷ []

unfoldable pub description : PipelineStep → Text
description ingest = codes "Claim episode from pending queue"
description extract = codes "LLM entity + relationship extraction"
description embed = codes "Generate embeddings for entities, edges, episode"
description graph_update = codes "Resolve entities, create edges, handle conflicts"
description webhook_notify = codes "Fire FactAdded/FactSuperseded webhooks"
description digest_invalidate = codes "Clear cached digests for affected users"
description session_summarize = codes "Progressive session summarization (conditional)"

unfoldable pub is_critical : PipelineStep → Bool
is_critical ingest = true
is_critical extract = true
is_critical embed = true
is_critical graph_update = true
is_critical webhook_notify = false
is_critical digest_invalidate = false
is_critical session_summarize = false

pub record DagConfig : Type 0 where
  pub max_retries : ℕ
  pub dead_letter_enabled : Bool
  pub dead_letter_max_size : ℕ
  pub retry_base_delay_ms : ℕ

-- `DagConfig::default`
unfoldable pub default_config : DagConfig
default_config = record {
  max_retries = 3;
  dead_letter_enabled = true;
  dead_letter_max_size = 1000;
  retry_base_delay_ms = 500;
}

-- `1u64 << n`, for an `n` below 64.
abbrev pub shifted_one : ℕ → ℕ
shifted_one n = 2 ^ n

-- `backoff_delay_ms`; the product wraps.
unfoldable pub backoff_delay_ms : DagConfig → ℕ → ℕ
backoff_delay_ms c retry_count =
    (c.retry_base_delay_ms * shifted_one (min retry_count 10)) % u64_mod
