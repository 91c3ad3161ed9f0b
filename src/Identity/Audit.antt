-- ===== src/Identity/Audit.antt =====
-- The audit log of identity changes and its verification, crates/mnemo-core/src/models/agent.rs.
-- SHA-256 in hexadecimal is the parameter `sha256_hex`.
pub mod Links
pub mod Tampering
pub mod Undetected
use mnemo.Base.{
  ℕ, zero, suc, ◌+◌, Bool, true, false, not, ◌&&◌, if◌then◌else◌, ◌==◌, Option, none, some, is_some,
  get_or, List, [], ◌∷◌, ◌++◌, length,
}
use mnemo.Base.Order.{Text, codes, text_ord, eqb}
use mnemo.Base.Ascii.{decimal}

pub data AgentIdentityAuditAction : Type 0 where
  created updated rolled_back branch_created branch_merged branch_deleted forked :
      AgentIdentityAuditAction

-- The name that serde writes for an action.
unfoldable pub action_name : AgentIdentityAuditAction → Text
action_name created = codes "created"
action_name updated = codes "updated"
action_name rolled_back = codes "rolled_back"
action_name branch_created = codes "branch_created"
action_name branch_merged = codes "branch_merged"
action_name branch_deleted = codes "branch_deleted"
action_name forked = codes "forked"

pub record AgentIdentityAuditEvent : Type 0 where
  pub id : ℕ
  pub agent_id : Text
  pub action : AgentIdentityAuditAction
  pub from_version : Option ℕ
  pub to_version : ℕ
  pub rollback_to_version : Option ℕ
  pub reason : Option Text
  pub created_at : ℕ
  pub prev_hash : Option Text
  pub event_hash : Text

pub record AuditChainBreak : Type 0 where
  pub index : ℕ
  pub event_id : ℕ
  pub reason : Text

pub record AuditChainVerification : Type 0 where
  pub valid : Bool
  pub chain_length : ℕ
  pub breaks : List AuditChainBreak

unfoldable pub version_text : Option ℕ → Text
version_text none = []
version_text (some v) = decimal v

abbrev pub bar : Text → Text → Text
bar front back = front ++ (b'|' ∷ back)

-- The fields that are hashed, with a bar between two.
unfoldable pub hash_input : AgentIdentityAuditEvent → Text
hash_input e = bar (action_name e.action) (
    bar (version_text e.from_version)
      (bar (decimal e.to_version) (bar (get_or e.prev_hash []) (decimal e.created_at))))

module _ (sha256_hex : Text → Text) where
  unfoldable pub compute_hash : AgentIdentityAuditEvent → Text
  compute_hash e = sha256_hex (hash_input e)

  unfoldable pub verify_hash : AgentIdentityAuditEvent → Bool
  verify_hash e = eqb e.event_hash (compute_hash e)

abbrev pub break_at : ℕ → AgentIdentityAuditEvent → Text → AuditChainBreak
break_at i e reason = record { index = i; event_id = e.id; reason = reason }

-- The check of the first event of the chain.
unfoldable pub check_genesis : ℕ → AgentIdentityAuditEvent → Option AuditChainBreak
check_genesis i e =
    if is_some e.prev_hash && i == 0
    then some (break_at i e (codes "Genesis event should have prev_hash = None"))
    else none

-- The check of a later event against the hash of the one before it.
unfoldable pub check_link : ℕ → Text → AgentIdentityAuditEvent → Option AuditChainBreak
check_link i expected_prev e = elim e.prev_hash [
  | none ↦ some (break_at i e (codes "Non-genesis event has prev_hash = None"))
  | some ph ↦
      if not (eqb ph expected_prev)
      then some (
          break_at i e
            (codes "prev_hash mismatch: stored=" ++ ph ++ codes ", expected=" ++ expected_prev))
      else none
]

module _ (sha256_hex : Text → Text) where
  -- One round of the loop: `before` is the event before, none for the first of the chain.
  unfoldable pub check_event :
      ℕ → Option AgentIdentityAuditEvent → AgentIdentityAuditEvent → Option AuditChainBreak
  check_event i before e =
      if not (verify_hash sha256_hex e)
      then some (
          break_at i e (
            codes "event_hash mismatch: stored="
            ++ e.event_hash
            ++ codes ", computed="
            ++ compute_hash sha256_hex e))
      else elim before [ none ↦ check_genesis i e | some p ↦ check_link i p.event_hash e ]

  unfoldable pub check_rest :
      ℕ → Option AgentIdentityAuditEvent → List AgentIdentityAuditEvent → List AuditChainBreak
  check_rest i before [] = []
  check_rest i before (e ∷ events) = elim (check_event i before e) [
    | none ↦ check_rest (i + 1) (some e) events
    | some b ↦ b ∷ check_rest (i + 1) (some e) events
  ]

  -- The loop, which starts at the first event with a hash.
  unfoldable pub chain_breaks : ℕ → List AgentIdentityAuditEvent → List AuditChainBreak
  chain_breaks i [] = []
  chain_breaks i (e ∷ events) = elim (eqb e.event_hash []) [
    | true ↦ chain_breaks (i + 1) events
    | false ↦ check_rest i none (e ∷ events)
  ]

  unfoldable pub verify_audit_chain : List AgentIdentityAuditEvent → AuditChainVerification
  verify_audit_chain events =
      let breaks = chain_breaks 0 events in
      record {
        valid = elim breaks [ [] ↦ true | _ ∷ _ ↦ false ];
        chain_length = length events;
        breaks = breaks;
      }
