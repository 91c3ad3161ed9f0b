-- ===== src/Ingest/Retries.antt =====
-- How often an episode that keeps failing is requeued, and the delays that are asked for; the store
-- does not wait for them.
use native.Mathlib.Nat.{pow-le-pow_right}
use mnemo.Base.{
  ℕ, zero, suc, ◌+◌, ◌*◌, ◌-◌, ◌^◌, ◌%◌, ◌≤◌, ◌<◌, ◌≡◌, refl, ap, ◌∙◌, true, false, leb, Option,
  none, some, List, [], ◌∷◌, ◌++◌, length, arith, u64_mod, add_u32,
}
use mnemo.Base.Order.{Text}
use mnemo.Models.Episode.{Episode, ProcessingStatus, requeue_for_retry, mark_failed, retry_delay}
use mnemo.Ingest.{handle_failure}

-- An episode that fails with each of the errors in turn, until it is not requeued: the episode as
-- last written, and the delays.
unfoldable pub fail_all : ℕ → Episode → List Text → Episode × List ℕ
fail_all max_retries e [] = (e, [])
fail_all max_retries e (error ∷ errors) =
    let written = (handle_failure true max_retries error e).0 in
    let rest = fail_all max_retries written errors in
    elim (handle_failure true max_retries error e).1 [
      | none ↦ (written, [])
      | some delay_ms ↦ (rest.0, delay_ms ∷ rest.1)
    ]

-- Half a second, doubled each time, `n` delays from the `k`-th on.
abbrev pub doubled_delays : ℕ → ℕ → List ℕ
doubled_delays zero k = []
doubled_delays (suc n) k = 500 * 2 ^ k ∷ doubled_delays n (suc k)

retry_delay-small : (k : ℕ) → k ≤ 55 → retry_delay k ≡ 500 * 2 ^ k
retry_delay-small k h =
    let bound : 2 ^ k ≤ 2 ^ 55 = pow-le-pow_right (omega arith) h in
    let small : 2 ^ k % u64_mod ≡ 2 ^ k = omega (arith, bound) in
    ap (λ p. (500 * p) % u64_mod) small ∙ omega (arith, bound)

-- What the handler makes of the answer of `requeue_for_retry`, and a run of that of the handler.
abbrev handled : Episode × Option ℕ → Episode × Option ℕ
handled q = elim q.1 [ some delay_ms ↦ (q.0, some delay_ms) | none ↦ (q.0, none) ]

unfoldable continued : ℕ → List Text → Episode × Option ℕ → Episode × List ℕ
unfolding fail_all
continued max_retries errors q =
    let rest = fail_all max_retries q.0 errors in
    elim q.1 [ none ↦ (q.0, []) | some delay_ms ↦ (rest.0, delay_ms ∷ rest.1) ]

-- One failure of an episode that has retries left, and of one that has none.
retry_left :
    (max_retries : ℕ) (error : Text) (e : Episode)
    → e.retry_count < max_retries
    → max_retries ≤ 56
    → handle_failure true max_retries error e ≡ (
      record e {
        retry_count = suc e.retry_count;
        processing_status = ProcessingStatus.pending;
        processing_error = some error;
      },
      some (500 * 2 ^ e.retry_count),
    )
unfolding handle_failure requeue_for_retry
retry_left max_retries error e l m =
    let left : leb max_retries e.retry_count ≡ false = ground arith in
    let up : add_u32 e.retry_count 1 ≡ suc e.retry_count = omega arith in
    let delay : retry_delay (suc e.retry_count - 1) ≡ 500 * 2 ^ e.retry_count =
      ap retry_delay (omega arith) ∙ retry_delay-small e.retry_count (omega arith) in
    let next : ℕ → Episode = λ c. record e {
      retry_count = c;
      processing_status = ProcessingStatus.pending;
      processing_error = some error;
    } in
    let opened : handle_failure true max_retries error e
        ≡ (next (add_u32 e.retry_count 1), some (retry_delay (add_u32 e.retry_count 1 - 1))) =
      ap handled {x = requeue_for_retry error max_retries e}
        {y = (next (add_u32 e.retry_count 1), some (retry_delay (add_u32 e.retry_count 1 - 1)))}
        (rw (left, requeue_for_retry) refl) in
    opened
    ∙ ap (λ c. (next c, some (retry_delay (c - 1)))) up
    ∙ ap (λ d. (next (suc e.retry_count), some d)) delay

no_retry_left :
    (max_retries : ℕ) (error : Text) (e : Episode)
    → max_retries ≤ e.retry_count
    → handle_failure true max_retries error e ≡ (mark_failed error e, none)
unfolding handle_failure requeue_for_retry
no_retry_left max_retries error e l =
    let none_left : leb max_retries e.retry_count ≡ true = ground arith in
    ap handled {x = requeue_for_retry error max_retries e} {y = (mark_failed error e, none)}
      (rw (none_left, requeue_for_retry) refl)

-- An episode that keeps failing is requeued once for each retry that it has left, and at the failure
-- after that is marked as failed with the last error. At each failure but the last the handler asks
-- the store for a delay of half a second, doubled once for each retry counted before. This holds with
-- at most 56 retries in all.
pub retries_exhausted :
    (max_retries n : ℕ) (e : Episode) (errors : List Text) (last : Text)
    → max_retries ≤ 56
    → e.retry_count + n ≡ max_retries
    → length errors ≡ n
    → fail_all max_retries e (errors ++ last ∷ []) ≡ (
      record e {
        retry_count = max_retries;
        processing_status = ProcessingStatus.failed;
        processing_error = some last;
      },
      doubled_delays n e.retry_count,
    )
unfolding fail_all mark_failed continued
retries_exhausted max_retries zero e [] last m r l =
    ap (continued max_retries []) (no_retry_left max_retries last e (omega arith))
    ∙ ap
        (λ c. (
          record e {
            retry_count = c;
            processing_status = ProcessingStatus.failed;
            processing_error = some last;
          },
          [],
        ))
        (omega arith)
retries_exhausted max_retries (suc n) e (error ∷ errors) last m r l =
    let next : Episode = record e {
      retry_count = suc e.retry_count;
      processing_status = ProcessingStatus.pending;
      processing_error = some error;
    } in
    ap (continued max_retries (errors ++ last ∷ []))
      (retry_left max_retries error e (omega arith) m)
    ∙ ap (λ q. (q.0, 500 * 2 ^ e.retry_count ∷ q.1))
        (retries_exhausted max_retries n next errors last m (omega arith) (omega arith))
retries_exhausted max_retries zero e (error ∷ errors) last m r l = absurd (omega arith)
retries_exhausted max_retries (suc n) e [] last m r l = absurd (omega arith)
