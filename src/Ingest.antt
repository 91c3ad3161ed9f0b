-- ===== src/Ingest.antt =====
-- crates/mnemo-ingest/src/lib.rs: how a worker picks the episodes of a poll, and what it does with
-- one that failed. What the store answers is an argument; hash maps are functions; texts are ASCII.
pub mod Turns
pub mod Groups
pub mod Ranks
pub mod Queues
pub mod Batch
pub mod Levels
pub mod Fairness
pub mod Retries
use Prim.Native.Nat.{compare, Ordering}
use mnemo.Base.{
  ℕ, zero, suc, ◌+◌, ◌*◌, ◌%◌, max, min, Bool, true, false, ◌&&◌, ◌||◌, if◌then◌else◌, ◌==◌, leb,
  ltb, Option, none, some, is_some, get_or, List, [], ◌∷◌, ◌++◌, map, length, u32_mod,
}
use mnemo.Base.Order.{Text, codes, then_with}
use mnemo.Base.Ascii.{to_lowercase, contains}
use mnemo.Models.Episode.{Episode, requeue_for_retry}

-- The scores add up to 14 at most, so that the u8 does not wrap.
unfoldable pub episode_priority : Text → ℕ
episode_priority content =
    let lower = to_lowercase content in
    (if contains lower (codes " named ") then 4 else 0)
    + (if contains lower (codes "most viewed")
          || (contains lower (codes "instagram") && contains lower (codes "views"))
        then 4
        else 0)
    + (if contains lower (codes "works as")
          || contains lower (codes " is a ")
          || contains lower (codes " is an ")
        then 3
        else 0)
    + (if contains lower (codes "allergic")
          || contains lower (codes "birthday")
          || contains lower (codes "studied ")
        then 2
        else 0)
    + (if contains lower (codes "favourite")
          || contains lower (codes "favorite")
          || contains lower (codes "prefers ")
        then 1
        else 0)

pub record IngestConfig : Type 0 where
  pub poll_interval_ms : ℕ
  pub batch_size : ℕ
  pub concurrency : ℕ
  pub max_retries : ℕ
  pub session_summary_threshold : ℕ
  pub sleep_enabled : Bool
  pub sleep_idle_window_seconds : ℕ

-- `IngestConfig::default`
unfoldable pub default_config : IngestConfig
default_config = record {
  poll_interval_ms = 500;
  batch_size = 10;
  concurrency = 4;
  max_retries = 3;
  session_summary_threshold = 10;
  sleep_enabled = true;
  sleep_idle_window_seconds = 300;
}

-- `u32::saturating_mul`
abbrev saturating_mul : ℕ → ℕ → ℕ
saturating_mul a b = min (a * b) 4294967295

-- How many episodes a poll asks the store for; `as u32` drops the high bits.
unfoldable pub fetch_limit : IngestConfig → ℕ
fetch_limit c = max (saturating_mul c.batch_size (max c.concurrency 1 % u32_mod)) c.batch_size

-- An episode with its priority and its place among those that the store answered.
pub record Ranked : Type 0 where
  pub priority : ℕ
  pub index : ℕ
  pub episode : Episode

-- Whether `a` stays before `b`: the comparison of `sort_by` is not `Greater`.
abbrev pub stays_before : Ranked → Ranked → Bool
stays_before a b = elim (then_with (compare b.priority a.priority) (compare a.index b.index)) [
  | Ordering.gt ↦ false
  | _ ↦ true
]

unfoldable pub insert_ranked : Ranked → List Ranked → List Ranked
insert_ranked a [] = a ∷ []
insert_ranked a (b ∷ rest) =
    let below = insert_ranked a rest in if stays_before a b then a ∷ b ∷ rest else b ∷ below

-- `sort_by`
unfoldable pub sort_ranked : List Ranked → List Ranked
sort_ranked [] = []
sort_ranked (a ∷ rest) = insert_ranked a (sort_ranked rest)

-- A hash map whose keys are the ids of users.
abbrev pub PerUser : Type 0 → Type 0
PerUser A = ℕ → Option (List A)

abbrev pub put : {A : Type 0} → ℕ → List A → PerUser A → PerUser A
put u queue m v = if v == u then some queue else m v

pub record Grouped : Type 0 where
  pub per_user : PerUser Ranked
  pub user_order : List ℕ

unfoldable pub group_one : ℕ → Episode → Grouped → Grouped
group_one index e g = record {
  per_user =
      put e.user_id
        (get_or (g.per_user e.user_id) []
          ++ record { priority = episode_priority e.content; index = index; episode = e } ∷ [])
        g.per_user;
  user_order =
      if is_some (g.per_user e.user_id) then g.user_order else g.user_order ++ e.user_id ∷ [];
}

unfoldable pub group : ℕ → List Episode → Grouped → Grouped
group index [] g = g
group index (e ∷ pending) g = group (suc index) pending (group_one index e g)

-- Each user's episodes in the order of the sort, without their ranks.
unfoldable pub sort_queues : PerUser Ranked → PerUser Episode
sort_queues m u = elim (m u) [
  | none ↦ none
  | some queue ↦ some (map (λ r. r.episode) (sort_ranked queue))
]

pub record Selection : Type 0 where
  pub queues : PerUser Episode
  pub selected : List Episode
  pub progressed : Bool

-- `queue.pop_front()` of one user, if there is one.
unfoldable pub take_turn : ℕ → Selection → Selection
take_turn u s = elim (s.queues u) [
  | none ↦ s
  | some [] ↦ s
  | some (e ∷ queue) ↦ record {
    queues = put u queue s.queues;
    selected = s.selected ++ e ∷ [];
    progressed = true;
  }
]

-- The `for` loop over the users, which ends once the batch is full.
unfoldable pub take_turns : ℕ → List ℕ → Selection → Selection
take_turns batch [] s = s
take_turns batch (u ∷ users) s = elim (leb batch (length s.selected)) [
  | true ↦ s
  | false ↦ take_turns batch users (take_turn u s)
]

-- The `while` loop; the size of the batch is enough fuel.
unfoldable pub take_rounds : ℕ → ℕ → List ℕ → Selection → Selection
take_rounds zero batch users s = s
take_rounds (suc fuel) batch users s = elim (ltb (length s.selected) batch) [
  | false ↦ s
  | true ↦
      let after = take_turns batch users (record s { progressed = false }) in
      elim (after.progressed) [ true ↦ take_rounds fuel batch users after | false ↦ after ]
]

abbrev pub grouped : List Episode → Grouped
grouped pending = group 0 pending (record { per_user = λ u. none; user_order = [] })

-- The part of `poll_and_process` between the store's answer and the claims.
unfoldable pub select : ℕ → List Episode → Selection
select batch pending =
    take_rounds batch batch (grouped pending).user_order (record {
      queues = sort_queues (grouped pending).per_user;
      selected = [];
      progressed = false;
    })

-- The claims: the store says of each id whether it was still there to claim, or fails, which ends the
-- poll.
unfoldable pub claim_all : (ℕ → Option Bool) → List Episode → Option (List Episode)
claim_all claim_episode [] = some []
claim_all claim_episode (e ∷ selected) =
    let rest = claim_all claim_episode selected in
    elim (claim_episode e.id) [
      | none ↦ none
      | some false ↦ rest
      | some true ↦ elim rest [ none ↦ none | some claimed ↦ some (e ∷ claimed) ]
    ]

-- What `handle_failure` writes: the episode, and the delay with which it is requeued if it is.
-- The first argument says whether the store takes the episode.
unfoldable pub handle_failure : Bool → ℕ → Text → Episode → Episode × Option ℕ
handle_failure updated max_retries error episode =
    let (e, delay) = requeue_for_retry error max_retries episode in
    elim delay [ some delay_ms ↦ (e, if updated then some delay_ms else none) | none ↦ (e, none) ]

-- The results of the claimed episodes, in the order in which they end: the number that succeeded, and
-- what is written of those that failed.
unfoldable pub collect_results : ℕ → List (Episode × Option Text) → ℕ × List (Episode × Option ℕ)
collect_results max_retries [] = (0, [])
collect_results max_retries ((e, none) ∷ results) =
    let rest = collect_results max_retries results in (suc rest.0, rest.1)
collect_results max_retries ((e, some error) ∷ results) =
    let rest = collect_results max_retries results in
    (rest.0, handle_failure true max_retries error e ∷ rest.1)
