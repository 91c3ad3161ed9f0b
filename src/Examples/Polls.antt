-- ===== src/Examples/Polls.antt =====
-- Polls, and an episode that keeps failing, at concrete inputs.
use mnemo.Base.{
  ℕ, map, ◌≡◌, ◌⊎◌, ◌≤◌, refl, suc, none, some, List, [], ◌∷◌, ◌++◌, length, keep, min, arith,
}
use mnemo.Base.Order.{Text, codes, text_ord, cmp_text}
use mnemo.Base.Ascii.{contains}
use mnemo.Models.Episode.{Episode, EpisodeType, Modality, ProcessingStatus, from_request}
use mnemo.Ingest.{
  select, take_rounds, take_turns, take_turn, sort_queues, sort_ranked, insert_ranked, group,
  group_one, episode_priority,
}
use mnemo.Ingest.Turns.{waiting}
use mnemo.Ingest.Ranks.{of_user, IsByPriority}
use mnemo.Ingest.Batch.{length-select, select-IsByPriority}
use mnemo.Ingest.Fairness.{select_fair}
use mnemo.Ingest.Retries.{fail_all, doubled_delays, retries_exhausted}

unfoldable said : ℕ → ℕ → Text → Episode
unfolding from_request
said number user_id content =
    from_request 1000 number
      (record {
        id = none;
        episode_type = EpisodeType.message;
        content = content;
        role = none;
        name = none;
        agent_id = none;
        metadata = codes "{}";
        created_at = none;
        modality = Modality.plain;
      })
      7 user_id none

-- Three episodes of user 1, the second of which comes first by priority, and one of user 2.
abbrev inbox : List Episode
inbox =
    said 1 1 (codes "hello")
    ∷ said 2 1 (codes "Ada is a pilot")
    ∷ said 3 2 (codes "hi")
    ∷ said 4 1 (codes "bye")
    ∷ []

length-select_example : length (select 3 inbox).selected ≡ min 3 (length inbox)
length-select_example = length-select 3 inbox

select-IsByPriority_example :
    IsByPriority
      (keep (of_user 1) inbox)
      (keep (of_user 1) (select 2 inbox).selected ++ waiting (select 2 inbox).queues 1)
select-IsByPriority_example = select-IsByPriority 2 inbox 1

select_fair_example :
    (length (keep (of_user 1) (select 3 inbox).selected)
      ≤ suc (length (keep (of_user 2) (select 3 inbox).selected)))
    ⊎ (waiting (select 3 inbox).queues 2 ≡ [])
select_fair_example = select_fair 3 inbox 1 2

retries_exhausted_example :
    fail_all 3
      (said 1 1 (codes "hello"))
      ((codes "a" ∷ codes "b" ∷ codes "c" ∷ []) ++ codes "d" ∷ [])
    ≡ (
      record (said 1 1 (codes "hello")) {
        retry_count = 3;
        processing_status = ProcessingStatus.failed;
        processing_error = some (codes "d");
      },
      doubled_delays 3 (said 1 1 (codes "hello")).retry_count,
    )
unfolding said from_request
retries_exhausted_example =
    retries_exhausted 3 3 (said 1 1 (codes "hello")) (codes "a" ∷ codes "b" ∷ codes "c" ∷ [])
      (codes "d") (omega arith) refl refl

in_turn : map (λ e. e.id) (select 3 inbox).selected ≡ 2 ∷ 3 ∷ 1 ∷ []
unfolding select take_rounds take_turns group group_one said take_turn sort_queues sort_ranked
    insert_ranked episode_priority contains text_ord cmp_text
in_turn = refl
