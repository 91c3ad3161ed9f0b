-- ===== src/Ingest/Fairness.antt =====
-- The round robin serves the users evenly.
use mathlib.Core.List.{Memᴰ}
use mnemo.Base.{
  ℕ, zero, suc, ◌≤◌, ◌<◌, ◌≡◌, ◌∙◌, ◌⊎◌, inl, inr, false, ltb, List, [], ◌∷◌, length, keep, All,
  All-mem, arith, ltb→lt, Bool-cases, Option-cases,
}
use mnemo.Models.Episode.{Episode}
use mnemo.Ingest.{Selection, take_turns, take_rounds, select, grouped, sort_queues}
use mnemo.Ingest.Turns.{waiting, AreDistinct}
use mnemo.Ingest.Ranks.{of_user}
use mnemo.Ingest.Queues.{first_queue-IsByPriority}
use mnemo.Ingest.Batch.{IsOwned, grouped-IsGrouped}
use mnemo.Ingest.Levels.{
  Level, Within, Level-Within, turns-IsOwned, turns-empty, turns-Within, turns-Levels,
}

-- Every user is listed or has nothing that waits.
abbrev IsCovered : List ℕ → Selection → Type 0
IsCovered users s = (u : ℕ) → (Memᴰ u users ⊎ (waiting s.queues u ≡ []))

All-Level :
    (r : ℕ) (s : Selection) (users : List ℕ) → ((u : ℕ) → Level r s u) → All (Level r s) users
All-Level r s [] l = tt
All-Level r s (u ∷ users) l = (l u, All-Level r s users l)

module _ (batch : ℕ) (order : List ℕ) (d : AreDistinct order) where
  turns-IsCovered :
      (s : Selection)
      → IsOwned s.queues
      → IsCovered order s
      → IsCovered order (take_turns batch order s)
  turns-IsCovered s o c u = elim (c u) [
    | inl i ↦ inl i
    | inr w ↦ inr ((turns-empty batch order s u o w).1 ∙ w)
  ]

  turns-Level :
      (r : ℕ) (s : Selection)
      → IsOwned s.queues
      → IsCovered order s
      → ((u : ℕ) → Level r s u)
      → length (take_turns batch order s).selected < batch
      → (u : ℕ) → Level (suc r) (take_turns batch order s) u
  turns-Level r s o c l f u = elim (c u) [
    | inl i ↦ All-mem _ i (turns-Levels r batch order s d o (All-Level r s order l) f)
    | inr w ↦
        let same = turns-empty batch order s u o w in
        record { most = omega (arith, same.0, (l u).most); least = inr (same.1 ∙ w) }
  ]

  full_rounds :
      (fuel : ℕ) {r : ℕ} (s : Selection)
      → ltb (length s.selected) batch ≡ false
      → ((u : ℕ) → Within r s u)
      → (u : ℕ) → Within r (take_rounds fuel batch order s) u
  unfolding take_rounds
  full_rounds zero s f w = w
  full_rounds (suc fuel) s f w = rw (f, take_rounds) w

  rounds-Within :
      (fuel r : ℕ) (s : Selection)
      → IsOwned s.queues
      → IsCovered order s
      → ((u : ℕ) → Level r s u)
      → (last : ℕ) × ((u : ℕ) → Within last (take_rounds fuel batch order s) u)
  unfolding take_rounds
  rounds-Within zero r s o c l = (r, λ u. Level-Within r s u (l u))
  rounds-Within (suc fuel) r s o c l =
      let start = record s { progressed = false } in
      let after = take_turns batch order start in
      let levels : (u : ℕ) → Level r start u =
        λ u. record { most = (l u).most; least = (l u).least } in
      let within : (u : ℕ) → Within r after u =
        turns-Within r batch order start d o (All-Level r start order levels)
          (λ u. Level-Within r start u (levels u)) in
      elim (Bool-cases (ltb (length s.selected) batch)) [
        | inr g ↦ (r, rw (g, take_rounds) (λ u. Level-Within r s u (l u)))
        | inl g ↦ elim (Bool-cases after.progressed) [
          | inr p ↦ (r, rw (g, p, take_rounds) within)
          | inl p ↦ elim (Bool-cases (ltb (length after.selected) batch)) [
            | inr full ↦ (r, rw (g, p, take_rounds) (full_rounds fuel after full within))
            | inl f ↦
                let rest =
                  rounds-Within fuel (suc r) after (turns-IsOwned batch order start o)
                    (turns-IsCovered start o c) (turns-Level r start o c levels (ltb→lt _ _ f)) in
                (rest.0, rw (g, p, take_rounds) rest.1)
          ]
        ]
      ]

order-IsCovered :
    (pending : List Episode) (u : ℕ)
    → (Memᴰ u (grouped pending).user_order
        ⊎ (waiting (sort_queues (grouped pending).per_user) u ≡ []))
unfolding sort_queues
order-IsCovered pending u = elim (Option-cases ((grouped pending).per_user u)) [
  | inl p ↦ inr (ground (arith, p))
  | inr (queue, p) ↦ inl ((grouped-IsGrouped pending).listed u (ground (arith, p)))
]

-- No user is served at the cost of another: of two users, the first has at most one episode more in
-- the batch than the second, or no episode of the second waits.
pub select_fair :
    (batch : ℕ) (pending : List Episode) (u v : ℕ)
    → ((length (keep (of_user u) (select batch pending).selected)
          ≤ suc (length (keep (of_user v) (select batch pending).selected)))
        ⊎ (waiting (select batch pending).queues v ≡ []))
unfolding select
select_fair batch pending u v =
    let start : Selection = record {
      queues = sort_queues (grouped pending).per_user;
      selected = [];
      progressed = false;
    } in
    let (r, within) =
      rounds-Within batch (grouped pending).user_order (grouped-IsGrouped pending).distinct batch 0
        start (λ x. (first_queue-IsByPriority x pending).1) (order-IsCovered pending)
        (λ x. record { most = omega arith; least = inl (omega arith) }) in
    elim (within v).least [ inl p ↦ inl (omega (arith, (within u).most, p)) | inr p ↦ inr p ]
