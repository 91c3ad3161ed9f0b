-- ===== src/Pipeline/Order.antt =====
-- The order of the steps of dag.rs and the delays between retries.
use mnemo.Base.{
  ℕ, zero, suc, ◌+◌, ◌*◌, ◌^◌, ◌%◌, ◌≤◌, ◌<◌, ◌≡◌, refl, true, false, List, [], ◌∷◌, All, arith,
  min, ◌==◌, u64_mod,
}
use mnemo.Pipeline.{
  PipelineStep, ingest, extract, embed, graph_update, webhook_notify, digest_invalidate,
  session_summarize, all_ordered, dependencies, is_critical, DagConfig, backoff_delay_ms,
}

abbrev pub step_code : PipelineStep → ℕ
step_code ingest = 0
step_code extract = 1
step_code embed = 2
step_code graph_update = 3
step_code webhook_notify = 4
step_code digest_invalidate = 5
step_code session_summarize = 6

-- Where a step first stands in a list.
abbrev pub position : PipelineStep → List PipelineStep → ℕ
position s [] = 0
position s (t ∷ ts) = elim (step_code s == step_code t) [ true ↦ 0 | false ↦ suc (position s ts) ]

abbrev pub how_often : PipelineStep → List PipelineStep → ℕ
how_often s [] = 0
how_often s (t ∷ ts) = elim (step_code s == step_code t) [
  | true ↦ suc (how_often s ts)
  | false ↦ how_often s ts
]

-- The listed order is an execution order: each step stands in it once, after every step that it
-- depends on; and what a critical step depends on is critical.
pub all_ordered_topological :
    (s : PipelineStep)
    → (how_often s all_ordered ≡ 1)
      × All (λ d. position d all_ordered < position s all_ordered) (dependencies s)
      × (is_critical s ≡ true → All (λ d. is_critical d ≡ true) (dependencies s))
unfolding all_ordered dependencies is_critical
all_ordered_topological ingest = (refl, tt, λ h. tt)
all_ordered_topological extract = (refl, (omega arith, tt), λ h. (refl, tt))
all_ordered_topological embed = (refl, (omega arith, tt), λ h. (refl, tt))
all_ordered_topological graph_update = (refl, (omega arith, tt), λ h. (refl, tt))
all_ordered_topological webhook_notify = (refl, (omega arith, tt), λ h. ground arith)
all_ordered_topological digest_invalidate = (refl, (omega arith, tt), λ h. ground arith)
all_ordered_topological session_summarize = (refl, (omega arith, tt), λ h. ground arith)

-- The tenfold case split leaves literals, at which the powers compute.
doubled :
    (base n : ℕ)
    → base * 1024 < u64_mod
    → n < 10
    → (base * 2 ^ min (n + 1) 10) % u64_mod ≡ 2 * ((base * 2 ^ min n 10) % u64_mod)
doubled base zero h k = omega arith
doubled base (suc zero) h k = omega arith
doubled base (suc (suc zero)) h k = omega arith
doubled base (suc (suc (suc zero))) h k = omega arith
doubled base (suc (suc (suc (suc zero)))) h k = omega arith
doubled base (suc (suc (suc (suc (suc zero))))) h k = omega arith
doubled base (suc (suc (suc (suc (suc (suc zero)))))) h k = omega arith
doubled base (suc (suc (suc (suc (suc (suc (suc zero))))))) h k = omega arith
doubled base (suc (suc (suc (suc (suc (suc (suc (suc zero)))))))) h k = omega arith
doubled base (suc (suc (suc (suc (suc (suc (suc (suc (suc zero))))))))) h k = omega arith
doubled base (suc (suc (suc (suc (suc (suc (suc (suc (suc (suc n)))))))))) h k =
    absurd (omega arith)

min_ten : (n : ℕ) → 10 ≤ n → min n 10 ≡ 10
min_ten n h = omega arith

-- The delay doubles with each retry up to the tenth and then stays at 1024 times the base, as long
-- as that fits into 64 bits.
pub backoff_doubles :
    (c : DagConfig) (n : ℕ)
    → c.retry_base_delay_ms * 1024 < u64_mod
    → (backoff_delay_ms c 0 ≡ c.retry_base_delay_ms)
      × (n < 10 → backoff_delay_ms c (n + 1) ≡ 2 * backoff_delay_ms c n)
      × (10 ≤ n → backoff_delay_ms c n ≡ c.retry_base_delay_ms * 1024)
unfolding backoff_delay_ms
backoff_doubles c n h =
    (omega arith, doubled c.retry_base_delay_ms n h, λ k. rw (min_ten n k) (omega arith))
