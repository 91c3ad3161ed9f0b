-- ===== src/Identity/Promotion.antt =====
-- Proposals to change an agent's identity: `PromotionProposal` and `ApprovalPolicy` of
-- crates/mnemo-core/src/models/agent.rs, and the handlers `approve_promotion_proposal` and
-- `reject_promotion_proposal` of crates/mnemo-server/src/routes.rs on one proposal and the store of
-- its agent. The store does not fail, also not between the update of the identity and that of the
-- proposal, and the handlers run one after another; times are in milliseconds; the governance log and
-- the metrics are left out.
pub mod Approvals
use mnemo.Base.{
  ℕ, suc, ◌+◌, ◌*◌, Bool, true, false, not, if◌then◌else◌, leb, Option, none, some, List, [], ◌∷◌,
  ◌++◌, any, length,
}
use mnemo.Base.Order.{Text, codes, text_ord, eqb}
use mnemo.Base.Ascii.{trim, to_lowercase}
use mnemo.Identity.Proofs.{Value, Fields, keys_of, check_forbidden_substrings}
use mnemo.Identity.History.{AgentStore, Stamp, update_agent_identity}

pub data PromotionStatus : Type 0 where
  pending approved rejected expired : PromotionStatus

pub record ApprovalRequirement : Type 0 where
  pub min_approvers : ℕ
  pub cooling_period_hours : Option ℕ
  pub auto_reject_after_hours : Option ℕ

-- `ApprovalRequirement::default`
abbrev pub default_requirement : ApprovalRequirement
default_requirement = record {
  min_approvers = 1;
  cooling_period_hours = none;
  auto_reject_after_hours = none;
}

pub record ApprovalPolicy : Type 0 where
  pub agent_id : Text
  pub low_risk : ApprovalRequirement
  pub medium_risk : ApprovalRequirement
  pub high_risk : ApprovalRequirement
  pub updated_at : ℕ

unfoldable pub default_for_agent : Text → ℕ → ApprovalPolicy
default_for_agent agent_id now = record {
  agent_id = agent_id;
  low_risk = default_requirement;
  medium_risk = default_requirement;
  high_risk = default_requirement;
  updated_at = now;
}

unfoldable pub requirement_for_risk : ApprovalPolicy → Text → ApprovalRequirement
requirement_for_risk policy risk_level =
    if eqb (to_lowercase risk_level) (codes "low")
    then policy.low_risk
    else if eqb (to_lowercase risk_level) (codes "high")
    then policy.high_risk
    else policy.medium_risk

pub record PromotionProposal : Type 0 where
  pub id : ℕ
  pub agent_id : Text
  pub proposal : Text
  pub candidate_core : Value
  pub reason : Text
  pub risk_level : Text
  pub status : PromotionStatus
  pub source_event_ids : List ℕ
  pub approvers : List Text
  pub approved_at : Option ℕ
  pub rejected_at : Option ℕ
  pub expired_at : Option ℕ
  pub created_at : ℕ

pub record CreatePromotionProposalRequest : Type 0 where
  pub id : Option ℕ
  pub proposal : Text
  pub candidate_core : Value
  pub reason : Text
  pub risk_level : Text
  pub source_event_ids : List ℕ

-- The new id is used if the request has none.
unfoldable pub from_request : ℕ → ℕ → Text → CreatePromotionProposalRequest → PromotionProposal
from_request new_id now agent_id req = record {
  id = elim req.id [ none ↦ new_id | some id ↦ id ];
  agent_id = agent_id;
  proposal = req.proposal;
  candidate_core = req.candidate_core;
  reason = req.reason;
  risk_level = req.risk_level;
  status = pending;
  source_event_ids = req.source_event_ids;
  approvers = [];
  approved_at = none;
  rejected_at = none;
  expired_at = none;
  created_at = now;
}

abbrev pub is_pending : PromotionStatus → Bool
is_pending pending = true
is_pending _ = false

-- `Utc::now() >= created_at + Duration::hours(hours)`
abbrev pub hours_passed : ℕ → ℕ → ℕ → Bool
hours_passed now created_at hours = leb (created_at + hours * 3600000) now

unfoldable pub is_expired : ℕ → ApprovalPolicy → PromotionProposal → Bool
is_expired now policy p =
    if not (is_pending p.status)
    then false
    else elim (requirement_for_risk policy p.risk_level).auto_reject_after_hours [
      | none ↦ false
      | some hours ↦ hours_passed now p.created_at hours
    ]

unfoldable pub cooling_period_elapsed : ℕ → ApprovalPolicy → PromotionProposal → Bool
cooling_period_elapsed now policy p =
    elim (requirement_for_risk policy p.risk_level).cooling_period_hours [
      | none ↦ true
      | some hours ↦ hours_passed now p.created_at hours
    ]

unfoldable pub has_quorum : ApprovalPolicy → PromotionProposal → Bool
has_quorum policy p =
    leb (requirement_for_risk policy p.risk_level).min_approvers (length p.approvers)

-- The lists of `validate_identity_core`.
abbrev pub allowed_top_level : List Text
allowed_top_level =
    codes "mission"
    ∷ codes "style"
    ∷ codes "boundaries"
    ∷ codes "capabilities"
    ∷ codes "values"
    ∷ codes "persona"
    ∷ []

abbrev pub forbidden_substrings : List Text
forbidden_substrings =
    codes "user"
    ∷ codes "session"
    ∷ codes "episode"
    ∷ codes "external_id"
    ∷ codes "email"
    ∷ codes "phone"
    ∷ codes "address"
    ∷ []

unfoldable pub check_top_level : List Text → Option Text
check_top_level [] = none
check_top_level (key ∷ keys) =
    let rest = check_top_level keys in
    if any (λ k. eqb k key) allowed_top_level
    then rest
    else some (codes "identity core key '" ++ key ++ codes "' is not allowed")

-- `none` is `Ok`, and `some` the message of the error.
unfoldable pub validate_identity_core : Value → Option Text
validate_identity_core (Value.object fields) = elim (check_top_level (keys_of fields)) [
  | some message ↦ some message
  | none ↦
      elim (check_forbidden_substrings forbidden_substrings (Value.object fields) (codes "core/")) [
        | none ↦ none
        | some path ↦ some (codes "identity core contains forbidden key at " ++ path)
      ]
]
validate_identity_core _ = some (codes "identity core must be a JSON object")

-- A proposal and the store of its agent.
pub record Review : Type 0 where
  pub proposal : PromotionProposal
  pub agent : AgentStore

-- What a handler answers: an error, or the proposal.
pub data Answer : Type 0 where
  refused : Text → Answer
  answered : PromotionProposal → Answer

unfoldable pub record_approver : Text → PromotionProposal → PromotionProposal
record_approver name p =
    if any (eqb name) p.approvers then p else record p { approvers = p.approvers ++ name ∷ [] }

module _ (sha256_hex : Text → Text) (policy : ApprovalPolicy) where
  -- The part of the handler once the approver is recorded.
  unfoldable pub conclude_approval : Stamp → Stamp → PromotionProposal → Review → Review × Answer
  conclude_approval first second p r =
      if not (has_quorum policy p)
      then (record r { proposal = p }, answered p)
      else elim (validate_identity_core p.candidate_core) [
        | some message ↦ (r, refused message)
        | none ↦
            let agent =
              (update_agent_identity sha256_hex p.agent_id first second p.candidate_core
                r.agent).0 in
            let done = record p { status = approved; approved_at = some second.now } in
            (record { proposal = done; agent = agent }, answered done)
      ]

  -- `approve_promotion_proposal` of the caller with this key name.
  unfoldable pub approve : Stamp → Stamp → Text → Review → Review × Answer
  approve first second key_name r =
      if not (is_pending r.proposal.status)
      then (r, refused (codes "proposal is not pending"))
      else if is_expired first.now policy r.proposal
      then (
        record r {
          proposal = record (r.proposal) { status = expired; expired_at = some first.now };
        },
        refused (codes "proposal has expired"),
      )
      else if not (cooling_period_elapsed first.now policy r.proposal)
      then (r, refused (codes "cooling period has not elapsed"))
      else conclude_approval first second (record_approver key_name r.proposal) r

-- `reject_promotion_proposal`
unfoldable pub reject : ℕ → Option Text → Review → Review × Answer
reject now reason r =
    if not (is_pending r.proposal.status)
    then (r, refused (codes "proposal is not pending"))
    else (let dated : PromotionProposal = record (r.proposal) {
      status = rejected;
      rejected_at = some now;
    } in
        let noted : PromotionProposal = elim reason [
          | none ↦ dated
          | some why ↦ if eqb (trim why) [] then dated else record dated {
            reason = dated.reason ++ codes " | rejection_reason=" ++ trim why;
          }
        ] in
        (record r { proposal = noted }, answered noted))
