-- ===== src/Pipeline/Metrics.antt =====
-- `StepMetrics` of dag.rs. Each method makes one atomic addition after another, between which other
-- threads may make theirs; a method is the list of its additions.
use mathlib.Core.List.{Permᴰ}
use mnemo.Base.{
  ℕ, suc, ◌+◌, ◌/◌, ◌<◌, ◌≡◌, refl, ap, ◌∙◌, if◌then◌else◌, ltb, List, [], ◌∷◌, ◌++◌, arith,
  add_u64, u64_mod, ◌%◌,
}
use mnemo.Pipeline.{PipelineStep}

pub record StepMetrics : Type 0 where
  pub step : PipelineStep
  pub executions : ℕ
  pub successes : ℕ
  pub failures : ℕ
  pub retries : ℕ
  pub total_duration_us : ℕ

abbrev pub new : PipelineStep → StepMetrics
new step = record {
  step = step;
  executions = 0;
  successes = 0;
  failures = 0;
  retries = 0;
  total_duration_us = 0;
}

-- One `fetch_add`, on the counter that it names.
pub data Addition : Type 0 where
  to_executions to_successes to_failures to_retries to_total_duration_us : ℕ → Addition

unfoldable pub fetch_add : StepMetrics → Addition → StepMetrics
fetch_add m (to_executions n) = record m { executions = add_u64 m.executions n }
fetch_add m (to_successes n) = record m { successes = add_u64 m.successes n }
fetch_add m (to_failures n) = record m { failures = add_u64 m.failures n }
fetch_add m (to_retries n) = record m { retries = add_u64 m.retries n }
fetch_add m (to_total_duration_us n) = record m {
  total_duration_us = add_u64 m.total_duration_us n;
}

unfoldable pub fetch_all : StepMetrics → List Addition → StepMetrics
fetch_all m [] = m
fetch_all m (x ∷ xs) = fetch_all (fetch_add m x) xs

unfoldable pub record_success : ℕ → List Addition
record_success duration_us =
    to_executions 1 ∷ to_successes 1 ∷ to_total_duration_us duration_us ∷ []

unfoldable pub record_failure : List Addition
record_failure = to_executions 1 ∷ to_failures 1 ∷ []

unfoldable pub record_retry : List Addition
record_retry = to_retries 1 ∷ []

pub record StepMetricsSnapshot (F64 : Type 0) : Type 0 where
  pub step : PipelineStep
  pub executions : ℕ
  pub successes : ℕ
  pub failures : ℕ
  pub retries : ℕ
  pub error_rate : F64
  pub avg_duration_us : ℕ

module _ {F64 : Type 0} (f64_zero : F64) (f64_ratio : ℕ → ℕ → F64) where
  -- `to_json`, at a moment at which no other thread adds.
  unfoldable pub to_json : StepMetrics → StepMetricsSnapshot F64
  to_json m = record {
    step = m.step;
    executions = m.executions;
    successes = m.successes;
    failures = m.failures;
    retries = m.retries;
    error_rate = if ltb 0 m.executions then f64_ratio m.failures m.executions else f64_zero;
    avg_duration_us = if ltb 0 m.successes then m.total_duration_us / m.successes else 0;
  }

-- What the threads call.
pub data Call : Type 0 where
  success : ℕ → Call
  failure retry : Call

abbrev pub additions : Call → List Addition
additions (success duration_us) = record_success duration_us
additions failure = record_failure
additions retry = record_retry

abbrev pub all_additions : List Call → List Addition
all_additions [] = []
all_additions (c ∷ cs) = additions c ++ all_additions cs

fetch_add_comm :
    (m : StepMetrics) (x y : Addition) → fetch_add (fetch_add m x) y ≡ fetch_add (fetch_add m y) x
unfolding fetch_add
fetch_add_comm m x y = ground arith

fetch_all_perm :
    (m : StepMetrics) {xs ys : List Addition} → Permᴰ xs ys → fetch_all m xs ≡ fetch_all m ys
unfolding fetch_all
fetch_all_perm m Permᴰ.nil = refl
fetch_all_perm m (Permᴰ.cons {a = x} {l₁ = xs} {l₂ = ys} e p) =
    fetch_all_perm (fetch_add m x) p ∙ ap (λ z. fetch_all (fetch_add m z) ys) e
fetch_all_perm m (Permᴰ.swap {a = x} {b = y} {a' = y'} {b' = x'} {l = l} e f) =
    ap (λ n. fetch_all n l) (fetch_add_comm m x y)
    ∙ ap (λ z. fetch_all (fetch_add (fetch_add m z) x) l) f
    ∙ ap (λ z. fetch_all (fetch_add (fetch_add m y') z) l) e
fetch_all_perm m (Permᴰ.trans p q) = fetch_all_perm m p ∙ fetch_all_perm m q

abbrev pub how_many_succeed : List Call → ℕ
how_many_succeed [] = 0
how_many_succeed (success duration_us ∷ cs) = suc (how_many_succeed cs)
how_many_succeed (failure ∷ cs) = how_many_succeed cs
how_many_succeed (retry ∷ cs) = how_many_succeed cs

abbrev pub how_many_fail : List Call → ℕ
how_many_fail [] = 0
how_many_fail (success duration_us ∷ cs) = how_many_fail cs
how_many_fail (failure ∷ cs) = suc (how_many_fail cs)
how_many_fail (retry ∷ cs) = how_many_fail cs

abbrev pub how_many_retry : List Call → ℕ
how_many_retry [] = 0
how_many_retry (success duration_us ∷ cs) = how_many_retry cs
how_many_retry (failure ∷ cs) = how_many_retry cs
how_many_retry (retry ∷ cs) = suc (how_many_retry cs)

abbrev pub sum_durations : List Call → ℕ
sum_durations [] = 0
sum_durations (success duration_us ∷ cs) = duration_us + sum_durations cs
sum_durations (failure ∷ cs) = sum_durations cs
sum_durations (retry ∷ cs) = sum_durations cs

-- Every counter fits its 64 bits.
record IsInRange (m : StepMetrics) : Type 0 where
  executions_fit : m.executions < u64_mod
  successes_fit : m.successes < u64_mod
  failures_fit : m.failures < u64_mod
  retries_fit : m.retries < u64_mod
  total_fits : m.total_duration_us < u64_mod

fetch_add-IsInRange : (m : StepMetrics) (x : Addition) → IsInRange m → IsInRange (fetch_add m x)
unfolding fetch_add
fetch_add-IsInRange m x r = record {
  executions_fit = ground arith;
  successes_fit = ground arith;
  failures_fit = ground arith;
  retries_fit = ground arith;
  total_fits = ground arith;
}

abbrev Counts : StepMetrics → List Call → StepMetrics → Type 0
Counts m cs n =
    (n.successes ≡ (m.successes + how_many_succeed cs) % u64_mod)
    × (n.failures ≡ (m.failures + how_many_fail cs) % u64_mod)
    × (n.executions ≡ (m.executions + how_many_succeed cs + how_many_fail cs) % u64_mod)
    × (n.retries ≡ (m.retries + how_many_retry cs) % u64_mod)
    × (n.total_duration_us ≡ (m.total_duration_us + sum_durations cs) % u64_mod)

-- A call, then the rest.
after : StepMetrics → Call → StepMetrics
after m c = fetch_all m (additions c)

after-IsInRange : (m : StepMetrics) (c : Call) → IsInRange m → IsInRange (after m c)
unfolding after fetch_all record_success record_failure record_retry
after-IsInRange m (success d) r =
    fetch_add-IsInRange _ (to_total_duration_us d)
      (fetch_add-IsInRange _ (to_successes 1) (fetch_add-IsInRange m (to_executions 1) r))
after-IsInRange m failure r =
    fetch_add-IsInRange _ (to_failures 1) (fetch_add-IsInRange m (to_executions 1) r)
after-IsInRange m retry r = fetch_add-IsInRange m (to_retries 1) r

Counts-after :
    (m : StepMetrics) (c : Call) (cs : List Call) (n : StepMetrics)
    → Counts (after m c) cs n
    → Counts m (c ∷ cs) n
unfolding after fetch_all fetch_add record_success record_failure record_retry
Counts-after m (success d) cs n (s, f, e, r, t) =
    (omega (arith, s), omega (arith, f), omega (arith, e), omega (arith, r), omega (arith, t))
Counts-after m failure cs n (s, f, e, r, t) =
    (omega (arith, s), omega (arith, f), omega (arith, e), omega (arith, r), omega (arith, t))
Counts-after m retry cs n (s, f, e, r, t) =
    (omega (arith, s), omega (arith, f), omega (arith, e), omega (arith, r), omega (arith, t))

after-fetch_all :
    (m : StepMetrics) (c : Call) (xs : List Addition)
    → fetch_all m (additions c ++ xs) ≡ fetch_all (after m c) xs
unfolding after fetch_all record_success record_failure record_retry
after-fetch_all m (success d) xs = refl
after-fetch_all m failure xs = refl
after-fetch_all m retry xs = refl

fetch_all-Counts :
    (m : StepMetrics) (cs : List Call) → IsInRange m → Counts m cs (fetch_all m (all_additions cs))
unfolding fetch_all
fetch_all-Counts m [] r = (
  omega (arith, r.successes_fit),
  omega (arith, r.failures_fit),
  omega (arith, r.executions_fit),
  omega (arith, r.retries_fit),
  omega (arith, r.total_fits),
)
fetch_all-Counts m (c ∷ cs) r = rw (after-fetch_all m c (all_additions cs)) (
    Counts-after m c cs (fetch_all (after m c) (all_additions cs))
      (fetch_all-Counts (after m c) cs (after-IsInRange m c r)))

new-IsInRange : (step : PipelineStep) → IsInRange (new step)
new-IsInRange step = record {
  executions_fit = omega arith;
  successes_fit = omega arith;
  failures_fit = omega arith;
  retries_fit = omega arith;
  total_fits = omega arith;
}

fetch_add-step : (m : StepMetrics) (x : Addition) → (fetch_add m x).step ≡ m.step
unfolding fetch_add
fetch_add-step m x = ground arith

fetch_all-step : (m : StepMetrics) (ops : List Addition) → (fetch_all m ops).step ≡ m.step
unfolding fetch_all fetch_add
fetch_all-step m [] = refl
fetch_all-step m (x ∷ ops) = fetch_all-step (fetch_add m x) ops ∙ fetch_add-step m x

-- Whatever threads call the methods and in whatever order their additions fall, once all calls are
-- done the counters of the step hold the successes, the failures, the retries and the time that were
-- recorded, modulo 2 ^ 64, and the executions are the successes and the failures together.
pub metrics_consistent :
    (step : PipelineStep) (cs : List Call) (ops : List Addition)
    → Permᴰ (all_additions cs) ops
    → let m = fetch_all (new step) ops in
      (m.successes ≡ how_many_succeed cs % u64_mod)
      × (m.failures ≡ how_many_fail cs % u64_mod)
      × (m.executions ≡ add_u64 m.successes m.failures)
      × (m.retries ≡ how_many_retry cs % u64_mod)
      × (m.total_duration_us ≡ sum_durations cs % u64_mod)
      × (m.step ≡ step)
metrics_consistent step cs ops p =
    let counted : Counts (new step) cs (fetch_all (new step) ops) =
      rw (← fetch_all_perm (new step) p) (fetch_all-Counts (new step) cs (new-IsInRange step)) in
    let (s, f, e, r, t) = counted in
    (
      omega (arith, s),
      omega (arith, f),
      omega (arith, s, f, e),
      omega (arith, r),
      omega (arith, t),
      fetch_all-step (new step) ops,
    )
