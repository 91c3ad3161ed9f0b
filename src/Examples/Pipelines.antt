-- ===== src/Examples/Pipelines.antt =====
-- The pipeline of dag.rs at concrete inputs.
use mathlib.Core.List.{Permᴰ}
use mnemo.Base.{ℕ, ◌≡◌, ◌%◌, refl, List, [], ◌∷◌, add_u64, u64_mod}
use mnemo.Base.Order.{codes}
use mnemo.Pipeline.{extract, embed}
use mnemo.Pipeline.DeadLetters.{DeadLetterItem}
use mnemo.Pipeline.Metrics.{
  Call, success, failure, retry, Addition, to_executions, to_successes, to_failures, to_retries,
  to_total_duration_us, fetch_all, all_additions, how_many_succeed, how_many_fail, how_many_retry,
  sum_durations, metrics_consistent, record_success, record_failure, record_retry,
}
use mnemo.Pipeline.Metrics

abbrev item : ℕ → DeadLetterItem
item id = record {
  episode_id = id;
  failed_at_step = extract;
  retry_count = 3;
  last_error = codes "timeout";
  dead_lettered_at = 0;
}

abbrev dead : List DeadLetterItem
dead = item 1 ∷ item 2 ∷ item 3 ∷ []

abbrev calls : List Call
calls = failure ∷ success 50 ∷ retry ∷ []

-- Two threads whose additions interleave.
abbrev interleaved : List Addition
interleaved =
    to_executions 1
    ∷ to_executions 1
    ∷ to_failures 1
    ∷ to_successes 1
    ∷ to_total_duration_us 50
    ∷ to_retries 1
    ∷ []

interleaved-Permᴰ : Permᴰ (all_additions calls) interleaved
unfolding record_success record_failure record_retry
interleaved-Permᴰ = Permᴰ.cons refl (Permᴰ.swap refl refl)

metrics_consistent_example :
    ((fetch_all (Metrics.new embed) interleaved).successes ≡ how_many_succeed calls % u64_mod)
    × ((fetch_all (Metrics.new embed) interleaved).failures ≡ how_many_fail calls % u64_mod)
    × ((fetch_all (Metrics.new embed) interleaved).executions
        ≡ add_u64
            (fetch_all (Metrics.new embed) interleaved).successes
            (fetch_all (Metrics.new embed) interleaved).failures)
    × ((fetch_all (Metrics.new embed) interleaved).retries ≡ how_many_retry calls % u64_mod)
    × ((fetch_all (Metrics.new embed) interleaved).total_duration_us
        ≡ sum_durations calls % u64_mod)
    × ((fetch_all (Metrics.new embed) interleaved).step ≡ embed)
metrics_consistent_example = metrics_consistent embed calls interleaved interleaved-Permᴰ
