-- ===== src/Ingest/Batch.antt =====
-- What the selection of a poll answers.
use mathlib.Core.List.{append-nil, append_assoc}
use mnemo.Base.{
  ℕ, zero, suc, ◌≡◌, refl, sym, ap, subst, ◌∙◌, ◌⊎◌, inl, inr, true, false, leb, ltb, ◌==◌, min,
  List, [], ◌∷◌, ◌++◌, length, keep, keep-here, keep-other, All, arith, Bool-cases,
}
use mnemo.Models.Episode.{Episode}
use mnemo.Ingest.{
  PerUser, put, Selection, take_turn, take_turns, take_rounds, select, grouped, group,
}
use mnemo.Ingest.Turns.{waiting, Took, turn-cases, rounds_fill}
use mnemo.Ingest.Groups.{IsGrouped, group-IsGrouped, total-group}
use mnemo.Ingest.Ranks.{of_user, IsByPriority}
use mnemo.Ingest.Queues.{first_queue-IsByPriority, total-sort_queues}

pub grouped-IsGrouped : (pending : List Episode) → IsGrouped (grouped pending)
grouped-IsGrouped pending =
    group-IsGrouped 0 pending _
      (record { distinct = tt; listed = λ u h. absurd (ground arith); known = tt })

-- The batch holds as many of the pending episodes as it has room for: a poll leaves an episode out
-- only when the batch is full.
pub length-select :
    (batch : ℕ) (pending : List Episode)
    → length (select batch pending).selected ≡ min batch (length pending)
unfolding select group
length-select batch pending =
    let g = grouped pending in
    rounds_fill batch batch g.user_order _ (grouped-IsGrouped pending).distinct (omega arith)
      (omega arith)
    ∙ omega (
      arith,
      total-sort_queues g.per_user g.user_order,
      total-group 0 pending _ (grouped-IsGrouped []),
    )

-- Every episode waits in the queue of its user.
abbrev pub IsOwned : PerUser Episode → Type 0
IsOwned m = (u : ℕ) → All (λ e. of_user u e ≡ true) (waiting m u)

pub keep-snoc :
    (u : ℕ) (front : List Episode) (e : Episode)
    → keep (of_user u) (front ++ e ∷ []) ≡ keep (of_user u) front ++ keep (of_user u) (e ∷ [])
keep-snoc u [] e = refl
keep-snoc u (f ∷ front) e = ground (arith, keep-snoc u front e)

-- The queue of `u` as it was at the start: the selected part and what still waits.
abbrev whole : ℕ → Selection → List Episode
whole u s = keep (of_user u) s.selected ++ waiting s.queues u

-- A selection that owns its queues, and whose queue of `u` was `queue`.
record Keeps (u : ℕ) (queue : List Episode) (s : Selection) : Type 0 where
  owned : IsOwned s.queues
  same : whole u s ≡ queue

pub waiting-put :
    (u v : ℕ) (queue : List Episode) (m : PerUser Episode)
    → (((u ≡ v) × (waiting (put v queue m) u ≡ queue))
        ⊎ (((u == v) ≡ false) × (waiting (put v queue m) u ≡ waiting m u)))
waiting-put u v queue m = elim (Bool-cases (u == v)) [
  | inl p ↦ inl (ground arith, ground arith)
  | inr p ↦ inr (p, ground arith)
]

pub Took-IsOwned :
    (v : ℕ) (s after : Selection) (e : Episode) (queue : List Episode)
    → Took v s after e queue
    → IsOwned s.queues
    → IsOwned after.queues
Took-IsOwned v s after e queue t o x = elim (waiting-put x v queue s.queues) [
  | inl (same, q) ↦
      subst (All (λ f. of_user x f ≡ true)) (sym (ap (λ m. waiting m x) t.queues ∙ q)) (
        subst (λ y. All (λ f. of_user y f ≡ true) queue) (sym same)
          (subst (All (λ f. of_user v f ≡ true)) t.was (o v)).1)
  | inr (other, q) ↦
      subst (All (λ f. of_user x f ≡ true)) (sym (ap (λ m. waiting m x) t.queues ∙ q)) (o x)
]

Took-whole :
    (u v : ℕ) (s after : Selection) (e : Episode) (queue : List Episode)
    → Took v s after e queue
    → IsOwned s.queues
    → whole u after ≡ whole u s
Took-whole u v s after e queue t o =
    let own = (subst (All (λ f. of_user v f ≡ true)) t.was (o v)).0 in
    let kept = ap (keep (of_user u)) t.selected ∙ keep-snoc u s.selected e in
    elim (waiting-put u v queue s.queues) [
      | inl (same, q) ↦
          ap (λ w. w ++ waiting after.queues u) kept
          ∙ ap (λ w. (keep (of_user u) s.selected ++ keep (of_user u) (e ∷ [])) ++ w)
              (ap (λ m. waiting m u) t.queues ∙ q)
          ∙ ap (λ w. (keep (of_user u) s.selected ++ w) ++ queue)
              (keep-here (of_user u) e [] (subst (λ y. of_user y e ≡ true) (sym same) own))
          ∙ append_assoc (keep (of_user u) s.selected) (e ∷ []) queue
          ∙ ap (λ w. keep (of_user u) s.selected ++ w)
              (sym (subst (λ y. waiting s.queues y ≡ e ∷ queue) (sym same) t.was))
      | inr (other, q) ↦
          ap (λ w. w ++ waiting after.queues u) kept
          ∙ ap (λ w. (keep (of_user u) s.selected ++ keep (of_user u) (e ∷ [])) ++ w)
              (ap (λ m. waiting m u) t.queues ∙ q)
          ∙ ap (λ w. (keep (of_user u) s.selected ++ w) ++ waiting s.queues u)
              (keep-other (of_user u) e [] (ground arith))
          ∙ ap (λ w. w ++ waiting s.queues u) (append-nil (keep (of_user u) s.selected))
    ]

turn-Keeps :
    (u : ℕ) (queue : List Episode) (v : ℕ) (s : Selection)
    → Keeps u queue s
    → Keeps u queue (take_turn v s)
turn-Keeps u queue v s k = elim (turn-cases v s) [
  | inl (w, q) ↦ rw (q) k
  | inr (e, rest, t) ↦ record {
    owned = Took-IsOwned v s (take_turn v s) e rest t k.owned;
    same = Took-whole u v s (take_turn v s) e rest t k.owned ∙ k.same;
  }
]

turns-Keeps :
    (u : ℕ) (queue : List Episode) (batch : ℕ) (users : List ℕ) (s : Selection)
    → Keeps u queue s
    → Keeps u queue (take_turns batch users s)
unfolding take_turns
turns-Keeps u queue batch [] s k = k
turns-Keeps u queue batch (v ∷ users) s k = elim (Bool-cases (leb batch (length s.selected))) [
  | inl b ↦ rw (b, take_turns) k
  | inr b ↦
      rw (b, take_turns)
        (turns-Keeps u queue batch users (take_turn v s) (turn-Keeps u queue v s k))
]

rounds-Keeps :
    (u : ℕ) (queue : List Episode) (fuel batch : ℕ) (users : List ℕ) (s : Selection)
    → Keeps u queue s
    → Keeps u queue (take_rounds fuel batch users s)
unfolding take_rounds
rounds-Keeps u queue zero batch users s k = k
rounds-Keeps u queue (suc fuel) batch users s k =
    let after = take_turns batch users (record s { progressed = false }) in
    let next : Keeps u queue after =
      turns-Keeps u queue batch users _ (record { owned = k.owned; same = k.same }) in
    elim (Bool-cases (ltb (length s.selected) batch)) [
      | inr l ↦ rw (l, take_rounds) k
      | inl l ↦ elim (Bool-cases after.progressed) [
        | inl p ↦ rw (l, p, take_rounds) (rounds-Keeps u queue fuel batch users after next)
        | inr p ↦ rw (l, p, take_rounds) next
      ]
    ]

-- The selected episodes of a user, followed by those that still wait, are the user's pending
-- episodes by priority, and in the order in which they came where the priority is the same: what is
-- selected of a user is what that order has first.
pub select-IsByPriority :
    (batch : ℕ) (pending : List Episode) (u : ℕ)
    → IsByPriority (keep (of_user u) pending) (
        keep (of_user u) (select batch pending).selected ++ waiting (select batch pending).queues u)
unfolding select
select-IsByPriority batch pending u =
    let kept =
      rounds-Keeps u _ batch batch (grouped pending).user_order _
        (record { owned = λ v. (first_queue-IsByPriority v pending).1; same = refl }) in
    subst (IsByPriority (keep (of_user u) pending)) (sym kept.same)
      (first_queue-IsByPriority u pending).0
