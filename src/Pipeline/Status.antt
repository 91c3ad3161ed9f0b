-- ===== src/Pipeline/Status.antt =====
-- `PipelineMetrics` of dag.rs: the registry of the steps' metrics and the status of the pipeline.
use mnemo.Base.{ℕ, ◌≡◌, refl, Bool, List, map}
use mnemo.Base.Order.{Text}
use mnemo.Pipeline.{
  PipelineStep, ingest, extract, embed, graph_update, webhook_notify, digest_invalidate,
  session_summarize, all_ordered, dependencies, description, is_critical, DagConfig,
}
use mnemo.Pipeline.Metrics.{StepMetrics, StepMetricsSnapshot, to_json}
use mnemo.Pipeline.Metrics
use mnemo.Pipeline.DeadLetters.{DeadLetterItem, DeadLetterQueue, len, recent}
use mnemo.Pipeline.DeadLetters

pub record DagNode : Type 0 where
  pub step : PipelineStep
  pub description : Text
  pub dependencies : List PipelineStep
  pub critical : Bool

unfoldable pub build_dag_definition : List DagNode
build_dag_definition =
    map
      (λ s. record {
        step = s;
        description = description s;
        dependencies = dependencies s;
        critical = is_critical s;
      })
      all_ordered

pub record PipelineMetrics : Type 0 where
  pub ingest : StepMetrics
  pub extract : StepMetrics
  pub embed : StepMetrics
  pub graph_update : StepMetrics
  pub webhook_notify : StepMetrics
  pub digest_invalidate : StepMetrics
  pub session_summarize : StepMetrics
  pub dead_letter : DeadLetterQueue
  pub config : DagConfig

unfoldable pub new : DagConfig → PipelineMetrics
new config = record {
  ingest = Metrics.new ingest;
  extract = Metrics.new extract;
  embed = Metrics.new embed;
  graph_update = Metrics.new graph_update;
  webhook_notify = Metrics.new webhook_notify;
  digest_invalidate = Metrics.new digest_invalidate;
  session_summarize = Metrics.new session_summarize;
  dead_letter = DeadLetters.new config.dead_letter_max_size;
  config = config;
}

unfoldable pub get_step : PipelineMetrics → PipelineStep → StepMetrics
get_step m ingest = m.ingest
get_step m extract = m.extract
get_step m embed = m.embed
get_step m graph_update = m.graph_update
get_step m webhook_notify = m.webhook_notify
get_step m digest_invalidate = m.digest_invalidate
get_step m session_summarize = m.session_summarize

pub record DeadLetterSummary : Type 0 where
  pub count : ℕ
  pub max_size : ℕ
  pub recent_items : List DeadLetterItem

pub record PipelineStatus (F64 : Type 0) : Type 0 where
  pub steps : List (StepMetricsSnapshot F64)
  pub dag : List DagNode
  pub dead_letter : DeadLetterSummary
  pub config : DagConfig

module _ {F64 : Type 0} (f64_zero : F64) (f64_ratio : ℕ → ℕ → F64) where
  unfoldable pub status : PipelineMetrics → PipelineStatus F64
  unfolding build_dag_definition get_step to_json len recent
  status m = record {
    steps = map (λ s. to_json f64_zero f64_ratio (get_step m s)) all_ordered;
    dag = build_dag_definition;
    dead_letter = record {
      count = len m.dead_letter;
      max_size = m.config.dead_letter_max_size;
      recent_items = recent m.dead_letter 10;
    };
    config = m.config;
  }

-- Each step's metrics are registered under the step itself.
pub get_step-new : (config : DagConfig) (s : PipelineStep) → (get_step (new config) s).step ≡ s
unfolding get_step new
get_step-new config ingest = refl
get_step-new config extract = refl
get_step-new config embed = refl
get_step-new config graph_update = refl
get_step-new config webhook_notify = refl
get_step-new config digest_invalidate = refl
get_step-new config session_summarize = refl
