-- ===== src/Models/Clarification.antt =====
-- crates/mnemo-core/src/models/clarification.rs, and the handlers `resolve_clarification` and
-- `dismiss_clarification` of crates/mnemo-server/src/routes.rs once the caller's user is found. The
-- store does not fail; instants are in milliseconds; the clamped severity is an argument.
pub mod Lifecycle
use mnemo.Base.{
  ℕ, ◌+◌, ◌*◌, Bool, true, false, not, ◌&&◌, if◌then◌else◌, ◌==◌, ltb, Option, none, some, List, [],
  ◌∷◌,
}
use mnemo.Base.Order.{Text}
use mnemo.Base.Ascii.{trim}
use mnemo.Models.Edge.{Edge, invalidate, is_valid}

pub data ClarificationStatus : Type 0 where
  pending resolved expired dismissed : ClarificationStatus

pub record ClarificationRequest : Type 0 where
  pub id : ℕ
  pub user_id : ℕ
  pub question : Text
  pub status : ClarificationStatus
  pub conflict_edge_ids : List ℕ
  pub source_entity : Text
  pub label : Text
  pub conflicting_facts : List Text
  pub severity : ℕ
  pub created_at : ℕ
  pub expires_at : ℕ
  pub resolved_at : Option ℕ
  pub resolution_answer : Option Text
  pub winning_edge_id : Option ℕ
  pub resolution_episode_id : Option ℕ

-- `ClarificationRequest::new`
unfoldable pub new :
    ℕ → ℕ → ℕ → Text → List ℕ → Text → Text → List Text → ℕ → ℕ → ClarificationRequest
new now new_id user_id question conflict_edge_ids source label facts severity ttl_days = record {
  id = new_id;
  user_id = user_id;
  question = question;
  status = pending;
  conflict_edge_ids = conflict_edge_ids;
  source_entity = source;
  label = label;
  conflicting_facts = facts;
  severity = severity;
  created_at = now;
  expires_at = now + ttl_days * 86400000;
  resolved_at = none;
  resolution_answer = none;
  winning_edge_id = none;
  resolution_episode_id = none;
}

abbrev pub is_pending : ClarificationStatus → Bool
is_pending pending = true
is_pending _ = false

unfoldable pub is_expired : ℕ → ClarificationRequest → Bool
is_expired now c = is_pending c.status && ltb c.expires_at now

unfoldable pub resolve :
    ℕ → Text → Option ℕ → Option ℕ → ClarificationRequest → ClarificationRequest
resolve now answer winning_edge_id resolution_episode_id c = record c {
  status = resolved;
  resolved_at = some now;
  resolution_answer = some answer;
  winning_edge_id = winning_edge_id;
  resolution_episode_id = resolution_episode_id;
}

unfoldable pub dismiss : ℕ → ClarificationRequest → ClarificationRequest
dismiss now c = record c { status = dismissed; resolved_at = some now }

unfoldable pub expire : ClarificationRequest → ClarificationRequest
expire c = record c { status = expired }

-- The part of the store that the handlers use, by id; what is stored under an id carries this id.
pub record Store : Type 0 where
  pub clarifications : ℕ → Option ClarificationRequest
  pub edges : ℕ → Option Edge

abbrev pub put : {A : Type 0} → ℕ → A → (ℕ → Option A) → ℕ → Option A
put id a m x = if x == id then some a else m x

pub data Refusal : Type 0 where
  answer_required not_found foreign not_pending : Refusal

pub data Answer : Type 0 where
  refused : Refusal → Answer
  answered : ClarificationRequest → Answer

-- One edge that did not win.
unfoldable pub lose : ℕ → ℕ → (ℕ → Option Edge) → ℕ → Option Edge
lose now edge_id edges = elim (edges edge_id) [
  | none ↦ edges
  | some loser ↦ if is_valid loser then put edge_id (invalidate now loser 0) edges else edges
]

-- The loop over the conflicting edges.
unfoldable pub lose_all : ℕ → ℕ → List ℕ → (ℕ → Option Edge) → ℕ → Option Edge
lose_all now winner_id [] edges = edges
lose_all now winner_id (edge_id ∷ ids) edges =
    lose_all now winner_id ids
      (if not (edge_id == winner_id) then lose now edge_id edges else edges)

abbrev pub edges_after : ℕ → Option ℕ → List ℕ → (ℕ → Option Edge) → ℕ → Option Edge
edges_after now none ids edges = edges
edges_after now (some winner_id) ids edges = lose_all now winner_id ids edges

unfoldable pub resolve_clarification : ℕ → ℕ → ℕ → Text → Option ℕ → Store → Store × Answer
resolve_clarification now user_id id answer winning_edge_id s = elim (trim answer) [
  | [] ↦ (s, refused answer_required)
  | _ ↦ elim (s.clarifications id) [
    | none ↦ (s, refused not_found)
    | some c ↦
        let after = resolve now answer winning_edge_id none c in
        if not (c.user_id == user_id)
        then (s, refused foreign)
        else if not (is_pending c.status)
        then (s, refused not_pending)
        else (
          record {
            clarifications = put id after s.clarifications;
            edges = edges_after now winning_edge_id c.conflict_edge_ids s.edges;
          },
          answered after,
        )
  ]
]

unfoldable pub dismiss_clarification : ℕ → ℕ → ℕ → Store → Store × Answer
dismiss_clarification now user_id id s = elim (s.clarifications id) [
  | none ↦ (s, refused not_found)
  | some c ↦ if not (c.user_id == user_id) then (s, refused foreign) else (
    record s { clarifications = put id (dismiss now c) s.clarifications },
    answered (dismiss now c),
  )
]
