-- ===== src/Identity/History.antt =====
-- `AgentIdentityProfile` of crates/mnemo-core/src/models/agent.rs, and what
-- crates/mnemo-storage/src/redis_store.rs keeps of one agent: its identity, the identity at each
-- version, and the audit log, a sorted set by time and, at one time, by id. Redis does not fail, and
-- an id is compared as the number that its digits stand for.
pub mod Chain
pub mod Versions
use Prim.Native.Nat.Ordering.{lt, eq, gt}
use mnemo.Base.{
  ℕ, ◌+◌, Bool, true, false, ◌&&◌, ◌||◌, if◌then◌else◌, ltb, ◌==◌, Option, none, some, List, [],
  ◌∷◌, add_u64,
}
use mnemo.Base.Order.{Text, nat_ord}
use mnemo.BTreeMap.{BTreeMap, get, insert}
use mnemo.Identity.Proofs.{Value, Fields}
use mnemo.Identity.Audit.{
  AgentIdentityAuditAction, created, updated, rolled_back, AgentIdentityAuditEvent,
  AuditChainVerification, compute_hash, verify_audit_chain,
}

pub record AgentIdentityProfile : Type 0 where
  pub agent_id : Text
  pub version : ℕ
  pub core : Value
  pub updated_at : ℕ

unfoldable pub new : Text → ℕ → AgentIdentityProfile
new agent_id now = record {
  agent_id = agent_id;
  version = 1;
  core = Value.object Fields.no_fields;
  updated_at = now;
}

unfoldable pub apply_update : Value → ℕ → AgentIdentityProfile → AgentIdentityProfile
apply_update core now p = record p { core = core; version = add_u64 p.version 1; updated_at = now }

pub record AgentStore : Type 0 where
  pub identity : Option AgentIdentityProfile
  pub versions : BTreeMap ℕ AgentIdentityProfile
  pub audit : List AgentIdentityAuditEvent

-- The time and the new id of an event.
pub record Stamp : Type 0 where
  pub now : ℕ
  pub id : ℕ

abbrev pub is_before : Stamp → Stamp → Bool
is_before a b = ltb a.now b.now || (a.now == b.now && ltb a.id b.id)

abbrev pub stamp_of : AgentIdentityAuditEvent → Stamp
stamp_of e = record { now = e.created_at; id = e.id }

-- `ZADD` of a new member.
unfoldable pub zadd :
    AgentIdentityAuditEvent → List AgentIdentityAuditEvent → List AgentIdentityAuditEvent
zadd e [] = e ∷ []
zadd e (x ∷ events) =
    let rest = zadd e events in
    if is_before (stamp_of x) (stamp_of e) then x ∷ rest else e ∷ x ∷ events

-- The hash of the latest event.
unfoldable pub latest_hash : List AgentIdentityAuditEvent → Option Text
latest_hash [] = none
latest_hash (e ∷ []) = some e.event_hash
latest_hash (e ∷ f ∷ events) = latest_hash (f ∷ events)

unfoldable pub persist_identity_snapshot : AgentIdentityProfile → AgentStore → AgentStore
persist_identity_snapshot p s = record s {
  identity = some p;
  versions = insert s.versions p.version p;
}

module _ (sha256_hex : Text → Text) (agent_id : Text) where
  unfoldable pub audit_event :
      Stamp
      → AgentIdentityAuditAction
      → Option ℕ
      → ℕ
      → Option ℕ
      → Option Text
      → Option Text
      → AgentIdentityAuditEvent
  audit_event stamp action from_version to_version rollback_to_version reason prev_hash =
      let event : AgentIdentityAuditEvent = record {
        id = stamp.id;
        agent_id = agent_id;
        action = action;
        from_version = from_version;
        to_version = to_version;
        rollback_to_version = rollback_to_version;
        reason = reason;
        created_at = stamp.now;
        prev_hash = prev_hash;
        event_hash = [];
      } in
      record event { event_hash = compute_hash sha256_hex event }

  unfoldable pub append_identity_audit :
      Stamp
      → AgentIdentityAuditAction
      → Option ℕ
      → ℕ
      → Option ℕ
      → Option Text
      → AgentStore
      → AgentStore
  append_identity_audit stamp action from_version to_version rollback_to_version reason s =
      record s {
        audit =
            zadd
              (audit_event stamp action from_version to_version rollback_to_version reason
                (latest_hash s.audit))
              s.audit;
      }

  -- An agent that is not known is created.
  unfoldable pub get_agent_identity : Stamp → AgentStore → AgentStore × AgentIdentityProfile
  get_agent_identity stamp s = elim s.identity [
    | some identity ↦ (s, identity)
    | none ↦
        let identity = new agent_id stamp.now in
        (
          append_identity_audit stamp created none identity.version none none
              (persist_identity_snapshot identity s),
          identity,
        )
  ]

  unfoldable pub update_agent_identity :
      Stamp → Stamp → Value → AgentStore → AgentStore × AgentIdentityProfile
  update_agent_identity first second core s =
      let (known, before) = get_agent_identity first s in
      let identity = apply_update core second.now before in
      (
        append_identity_audit second updated (some before.version) identity.version none none
            (persist_identity_snapshot identity known),
        identity,
      )

  -- `none` is the error that the version is not found.
  unfoldable pub rollback_agent_identity :
      Stamp → Stamp → ℕ → Option Text → AgentStore → Option (AgentStore × AgentIdentityProfile)
  rollback_agent_identity first second target_version reason s =
      elim (get s.versions target_version) [
        | none ↦ none
        | some target ↦
            let (known, current) = get_agent_identity first s in
            let rolled : AgentIdentityProfile = record target {
              agent_id = agent_id;
              version = add_u64 current.version 1;
              updated_at = second.now;
            } in
            some (
              append_identity_audit second rolled_back (some current.version) rolled.version
                  (some target_version) reason (persist_identity_snapshot rolled known),
              rolled,
            )
      ]

  unfoldable pub verify_agent_audit_chain : AgentStore → AuditChainVerification
  verify_agent_audit_chain s = verify_audit_chain sha256_hex s.audit
