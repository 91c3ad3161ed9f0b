-- ===== src/Ingest/Ranks.antt =====
-- The sort of `poll_and_process`: by priority, and stable.
use mnemo.Base.{
  ℕ, suc, ◌<◌, ◌≤◌, ◌≡◌, refl, inl, inr, Bool, ◌==◌, List, [], ◌∷◌, map, length, keep, All, All-imp,
  arith, Bool-cases,
}
use mnemo.Models.Episode.{Episode}
use mnemo.Ingest.{Ranked, episode_priority, stays_before, insert_ranked, sort_ranked}

abbrev pub of_user : ℕ → Episode → Bool
of_user u e = e.user_id == u

abbrev pub has_priority : ℕ → Episode → Bool
has_priority p e = episode_priority e.content == p

-- No episode has a higher priority than one before it.
abbrev pub IsDescending : List Episode → Type 0
IsDescending [] = Unit
IsDescending (e ∷ queue) =
    All (λ f. episode_priority f.content ≤ episode_priority e.content) queue × IsDescending queue

-- `queue` is `arrived` by priority, and in the order of arrival where the priority is the same.
pub record IsByPriority (arrived queue : List Episode) : Type 0 where
  pub descending : IsDescending queue
  pub stable : (p : ℕ) → keep (has_priority p) queue ≡ keep (has_priority p) arrived

abbrev pub episodes : List Ranked → List Episode
episodes = map (λ r. r.episode)

-- Ranks as `poll_and_process` gives them: the score of the content, and rising places.
abbrev pub IsScored : Ranked → Type 0
IsScored r = r.priority ≡ episode_priority r.episode.content

abbrev pub IsAscending : List Ranked → Type 0
IsAscending [] = Unit
IsAscending (r ∷ queue) = All (λ q. r.index < q.index) queue × IsAscending queue

insert-All {ℓ} :
    (P : Ranked → Type ℓ) (a : Ranked) (queue : List Ranked)
    → P a
    → All P queue
    → All P (insert_ranked a queue)
unfolding insert_ranked
insert-All P a [] p k = (p, tt)
insert-All P a (b ∷ queue) p k = elim (Bool-cases (stays_before a b)) [
  | inl q ↦ rw (q, insert_ranked) (p, k)
  | inr q ↦ rw (q, insert_ranked) (k.0, insert-All P a queue p k.1)
]

pub sort-All {ℓ} :
    (P : Ranked → Type ℓ) (queue : List Ranked) → All P queue → All P (sort_ranked queue)
unfolding sort_ranked
sort-All P [] k = tt
sort-All P (a ∷ queue) k = insert-All P a (sort_ranked queue) k.0 (sort-All P queue k.1)

-- No rank has a higher priority than one before it.
abbrev IsSorted : List Ranked → Type 0
IsSorted [] = Unit
IsSorted (r ∷ queue) = All (λ q. q.priority ≤ r.priority) queue × IsSorted queue

insert-IsSorted :
    (a : Ranked) (queue : List Ranked) → IsSorted queue → IsSorted (insert_ranked a queue)
unfolding insert_ranked
insert-IsSorted a [] k = (tt, tt)
insert-IsSorted a (b ∷ queue) k = elim (Bool-cases (stays_before a b)) [
  | inl q ↦
      let le : b.priority ≤ a.priority = ground (arith, q) in
      rw (q, insert_ranked) ((le, All-imp _ _ (λ r h. omega (arith, h, le)) queue k.0), k)
  | inr q ↦
      rw (q, insert_ranked)
        (
          insert-All (λ r. r.priority ≤ b.priority) a queue (ground (arith, q)) k.0,
          insert-IsSorted a queue k.1,
        )
]

pub sort-IsSorted : (queue : List Ranked) → IsSorted (sort_ranked queue)
unfolding sort_ranked
sort-IsSorted [] = tt
sort-IsSorted (a ∷ queue) = insert-IsSorted a (sort_ranked queue) (sort-IsSorted queue)

-- A rank from before the others is put before those of its priority.
keep-insert :
    (p : ℕ) (a : Ranked) (queue : List Ranked)
    → All (λ q. a.index < q.index) queue
    → keep (λ r. r.priority == p) (insert_ranked a queue) ≡ keep (λ r. r.priority == p) (a ∷ queue)
unfolding insert_ranked
keep-insert p a [] k = refl
keep-insert p a (b ∷ queue) k = elim (Bool-cases (stays_before a b)) [
  | inl q ↦ rw (q, insert_ranked) refl
  | inr q ↦ rw (q, insert_ranked) (ground (arith, q, k.0, keep-insert p a queue k.1))
]

pub keep-sort :
    (p : ℕ) (queue : List Ranked)
    → IsAscending queue
    → keep (λ r. r.priority == p) (sort_ranked queue) ≡ keep (λ r. r.priority == p) queue
unfolding sort_ranked
keep-sort p [] k = refl
keep-sort p (a ∷ queue) k = ground (
  arith,
  keep-insert p a (sort_ranked queue) (sort-All (λ q. a.index < q.index) queue k.0),
  keep-sort p queue k.1,
)

pub keep-episodes :
    (p : ℕ) (queue : List Ranked)
    → All IsScored queue
    → keep (has_priority p) (episodes queue) ≡ episodes (keep (λ r. r.priority == p) queue)
keep-episodes p [] k = refl
keep-episodes p (r ∷ queue) k = ground (arith, k.0, keep-episodes p queue k.1)

episodes-le :
    (bound : ℕ) (queue : List Ranked)
    → All IsScored queue
    → All (λ q. q.priority ≤ bound) queue
    → All (λ f. episode_priority f.content ≤ bound) (episodes queue)
episodes-le bound [] k h = tt
episodes-le bound (r ∷ queue) k h = (omega (arith, k.0, h.0), episodes-le bound queue k.1 h.1)

pub episodes-IsDescending :
    (queue : List Ranked) → All IsScored queue → IsSorted queue → IsDescending (episodes queue)
episodes-IsDescending [] k s = tt
episodes-IsDescending (r ∷ queue) k s = (
  episodes-le _ queue k.1 (All-imp _ _ (λ q h. omega (arith, h, k.0)) queue s.0),
  episodes-IsDescending queue k.1 s.1,
)

length-insert :
    (a : Ranked) (queue : List Ranked) → length (insert_ranked a queue) ≡ suc (length queue)
unfolding insert_ranked
length-insert a [] = refl
length-insert a (b ∷ queue) = ground (arith, length-insert a queue)

pub episodes-All :
    (P : Episode → Type 0) (queue : List Ranked)
    → All (λ r. P r.episode) queue
    → All P (episodes queue)
episodes-All P [] k = tt
episodes-All P (r ∷ queue) k = (k.0, episodes-All P queue k.1)

pub length-episodes : (queue : List Ranked) → length (episodes queue) ≡ length queue
length-episodes [] = refl
length-episodes (r ∷ queue) = omega (arith, length-episodes queue)

pub length-sort : (queue : List Ranked) → length (episodes (sort_ranked queue)) ≡ length queue
unfolding sort_ranked
length-sort [] = refl
length-sort (a ∷ queue) = ground (
  arith,
  length-sort queue,
  length-insert a (sort_ranked queue),
  length-episodes (sort_ranked queue),
  length-episodes (insert_ranked a (sort_ranked queue)),
)
