-- ===== src/Ingest/Queues.antt =====
-- The queue of each user: its episodes by priority, and those of one priority as they came.
use mathlib.Core.List.{append-nil}
use mnemo.Base.{
  ℕ, suc, ◌<◌, ◌≡◌, refl, sym, ap, subst, ◌∙◌, ◌⊎◌, inl, inr, true, false, ◌==◌, List, [], ◌∷◌,
  ◌++◌, length, keep, keep-here, keep-other, All, All-append, All-imp, arith, Bool-cases,
  Option-cases,
}
use mnemo.Models.Episode.{Episode}
use mnemo.Ingest.{
  PerUser, Ranked, Grouped, group_one, group, grouped, episode_priority, sort_ranked, sort_queues,
}
use mnemo.Ingest.Turns.{waiting, total}
use mnemo.Ingest.Ranks.{
  of_user, has_priority, IsDescending, IsByPriority, episodes, IsScored, IsAscending, sort-All,
  sort-IsSorted, keep-sort, keep-episodes, episodes-IsDescending, episodes-All, length-sort,
}

pub waiting-sort_queues :
    (m : PerUser Ranked) (u : ℕ) → waiting (sort_queues m) u ≡ episodes (sort_ranked (waiting m u))
unfolding sort_queues sort_ranked
waiting-sort_queues m u = elim (Option-cases (m u)) [
  | inl p ↦ ground (arith, p)
  | inr (queue, p) ↦ ground (arith, p)
]

pub total-sort_queues :
    (m : PerUser Ranked) (users : List ℕ) → total (sort_queues m) users ≡ total m users
unfolding sort_queues
total-sort_queues m [] = refl
total-sort_queues m (u ∷ users) = omega (
  arith,
  ap length (waiting-sort_queues m u),
  length-sort (waiting m u),
  total-sort_queues m users,
)

-- The queue of `u` while the episodes before place `index` are grouped.
record IsRanked (u index : ℕ) (queue : List Ranked) : Type 0 where
  owned : All (λ r. of_user u r.episode ≡ true) queue
  scored : All IsScored queue
  ascending : IsAscending queue
  below : All (λ r. r.index < index) queue

snoc-IsAscending :
    (a : Ranked) (queue : List Ranked)
    → IsAscending queue
    → All (λ r. r.index < a.index) queue
    → IsAscending (queue ++ a ∷ [])
snoc-IsAscending a [] k b = (tt, tt)
snoc-IsAscending a (r ∷ queue) k b =
    (All-append _ queue (a ∷ []) k.0 (b.0, tt), snoc-IsAscending a queue k.1 b.1)

-- What grouping one episode does to a queue.
queue-group_one :
    (u index : ℕ) (e : Episode) (g : Grouped)
    → ((u == e.user_id) ≡ true)
        × (waiting (group_one index e g).per_user u
            ≡ waiting g.per_user u
              ++ record { priority = episode_priority e.content; index = index; episode = e } ∷ [])
      ⊎ ((u == e.user_id) ≡ false)
        × (waiting (group_one index e g).per_user u ≡ waiting g.per_user u)
unfolding group_one
queue-group_one u index e g = elim (Bool-cases (u == e.user_id)) [
  | inl p ↦ let same : e.user_id ≡ u = ground arith in inl (p, rw (p, group_one) (rw (same) refl))
  | inr p ↦ inr (p, rw (p, group_one) refl)
]

group_one-IsRanked :
    (u index : ℕ) (e : Episode) (g : Grouped)
    → IsRanked u index (waiting g.per_user u)
    → IsRanked u (suc index) (waiting (group_one index e g).per_user u)
group_one-IsRanked u index e g k =
    let a : Ranked = record { priority = episode_priority e.content; index = index; episode = e } in
    let queue = waiting g.per_user u in
    elim (queue-group_one u index e g) [
      | inr (p, q) ↦ subst (IsRanked u (suc index)) (sym q) (record {
        owned = k.owned;
        scored = k.scored;
        ascending = k.ascending;
        below = All-imp _ _ (λ r h. omega (arith, h)) queue k.below;
      })
      | inl (p, q) ↦ subst (IsRanked u (suc index)) (sym q) (record {
        owned = All-append _ queue (a ∷ []) k.owned (ground arith, tt);
        scored = All-append _ queue (a ∷ []) k.scored (refl, tt);
        ascending = snoc-IsAscending a queue k.ascending k.below;
        below =
            All-append _ queue (a ∷ []) (All-imp _ _ (λ r h. omega (arith, h)) queue k.below)
              (omega arith, tt);
      })
    ]

snoc-episodes :
    (queue : List Ranked) (a : Ranked) (more : List Episode)
    → episodes (queue ++ a ∷ []) ++ more ≡ episodes queue ++ (a.episode ∷ more)
snoc-episodes [] a more = refl
snoc-episodes (r ∷ queue) a more = ap (λ rest. r.episode ∷ rest) (snoc-episodes queue a more)

group-IsRanked :
    (u index : ℕ) (pending : List Episode) (g : Grouped)
    → IsRanked u index (waiting g.per_user u)
    → ((last : ℕ) × IsRanked u last (waiting (group index pending g).per_user u))
      × (episodes (waiting (group index pending g).per_user u)
          ≡ episodes (waiting g.per_user u) ++ keep (of_user u) pending)
unfolding group
group-IsRanked u index [] g k = ((index, k), sym (append-nil _))
group-IsRanked u index (e ∷ pending) g k =
    let rest =
      group-IsRanked u (suc index) pending (group_one index e g)
        (group_one-IsRanked u index e g k) in
    elim (queue-group_one u index e g) [
      | inl (p, q) ↦
          let own : of_user u e ≡ true = ground arith in
          (
            rest.0,
            rest.1
                ∙ ap (λ w. episodes w ++ keep (of_user u) pending) q
                ∙ snoc-episodes (waiting g.per_user u) _ _
                ∙ ap (λ w. episodes (waiting g.per_user u) ++ w)
                    (sym (keep-here (of_user u) e pending own)),
          )
      | inr (p, q) ↦
          let other : of_user u e ≡ false = ground arith in
          (
            rest.0,
            rest.1
                ∙ ap (λ w. episodes w ++ keep (of_user u) pending) q
                ∙ ap (λ w. episodes (waiting g.per_user u) ++ w)
                    (sym (keep-other (of_user u) e pending other)),
          )
    ]

-- The queue of a user when the selection starts.
pub first_queue-IsByPriority :
    (u : ℕ) (pending : List Episode)
    → IsByPriority (keep (of_user u) pending) (waiting (sort_queues (grouped pending).per_user) u)
      × All (λ e. of_user u e ≡ true) (waiting (sort_queues (grouped pending).per_user) u)
first_queue-IsByPriority u pending =
    let ((last, k), arrived) =
      group-IsRanked u 0 pending _
        (record { owned = tt; scored = tt; ascending = tt; below = tt }) in
    let queue = waiting (grouped pending).per_user u in
    let sorted = waiting-sort_queues (grouped pending).per_user u in
    let scores = sort-All IsScored queue k.scored in
    (
      record {
        descending =
            subst IsDescending (sym sorted)
              (episodes-IsDescending (sort_ranked queue) scores (sort-IsSorted queue));
        stable = λ p.
            ap (keep (has_priority p)) sorted
            ∙ keep-episodes p (sort_ranked queue) scores
            ∙ ap episodes (keep-sort p queue k.ascending)
            ∙ sym (keep-episodes p queue k.scored)
            ∙ ap (keep (has_priority p)) arrived;
      },
      subst (All (λ e. of_user u e ≡ true)) (sym sorted) (
          episodes-All (λ e. of_user u e ≡ true) (sort_ranked queue)
            (sort-All (λ r. of_user u r.episode ≡ true) queue k.owned)),
    )
