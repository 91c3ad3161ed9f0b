-- ===== src/Examples/Logs.antt =====
-- Audit logs, versions and proposals of an identity at concrete inputs.
use mnemo.Base.{
  ℕ, ◌+◌, ◌%◌, ◌≡◌, ◌⊎◌, refl, true, false, ◌==◌, none, some, List, [], ◌∷◌, any, map, length,
  arith,
}
use mnemo.Base.Order.{Text, codes, text_ord, eqb, cmp_text, nat_ord}
use mnemo.Base.Ascii.{decimal, digits}
use mnemo.BTreeMap.{get}
use mnemo.Identity.{Collision}
use mnemo.Identity.Proofs.{Value, Fields}
use mnemo.Identity.Audit.{
  AgentIdentityAuditEvent, created, updated, compute_hash, hash_input, verify_hash, action_name,
  version_text, check_genesis, check_link, check_event, check_rest, chain_breaks,
  verify_audit_chain,
}
use mnemo.Identity.Audit.Tampering.{SameInputs, audit_tamper_evident}
use mnemo.Identity.Audit.Undetected.{reword, rewording_undetected, blanking_undetected}
use mnemo.Identity.History.{
  AgentStore, AgentIdentityProfile, Stamp, verify_agent_audit_chain, update_agent_identity,
  rollback_agent_identity,
}
use mnemo.Identity.History.Chain.{Request, serve_all, no_agent, served_log_valid}
use mnemo.Identity.History.Versions.{IsCurrent, IsNext, rollback_undoes_update}
use mnemo.Identity.Promotion.{CreatePromotionProposalRequest, default_for_agent, from_request}
use mnemo.Identity.Promotion.Approvals.{IsGoverned, Decision, decide_all, approval-IsGoverned}

-- Digests of one digit, from the number of the bytes.
abbrev digest : Text → Text
digest s = (b'0' + length s % 10) ∷ []

digest_hexadecimal : (s : Text) → any (λ c. c == b'|') (digest s) ≡ false
digest_hexadecimal s = ground arith

digest_hashed : (s : Text) → eqb (digest s) [] ≡ false
unfolding text_ord cmp_text
digest_hashed s = refl

abbrev at : ℕ → ℕ → Stamp
at now id = record { now = now; id = id }

abbrev genesis : AgentIdentityAuditEvent
genesis = record {
  id = 1;
  agent_id = codes "bot";
  action = created;
  from_version = none;
  to_version = 1;
  rollback_to_version = none;
  reason = none;
  created_at = 5;
  prev_hash = none;
  event_hash = codes "3";
}

abbrev second_event : AgentIdentityAuditEvent
second_event = record {
  id = 2;
  agent_id = codes "bot";
  action = updated;
  from_version = some 1;
  to_version = 2;
  rollback_to_version = none;
  reason = none;
  created_at = 7;
  prev_hash = some (codes "3");
  event_hash = codes "5";
}

abbrev log : List AgentIdentityAuditEvent
log = genesis ∷ second_event ∷ []

log_valid : (verify_audit_chain digest log).valid ≡ true
unfolding verify_audit_chain chain_breaks check_rest check_event check_genesis check_link
    verify_hash compute_hash hash_input action_name version_text decimal digits text_ord cmp_text
log_valid = refl

genesis_hashed : eqb genesis.event_hash [] ≡ false
unfolding text_ord cmp_text
genesis_hashed = refl

second_hashed : eqb second_event.event_hash [] ≡ false
unfolding text_ord cmp_text
second_hashed = refl

audit_tamper_evident_example : SameInputs log log ⊎ Collision digest
audit_tamper_evident_example =
    audit_tamper_evident digest digest_hexadecimal genesis genesis (second_event ∷ [])
      (second_event ∷ []) log_valid log_valid genesis_hashed genesis_hashed refl refl

rewording_undetected_example :
    (verify_audit_chain digest
      (map (reword (codes "other") (some 9) (some (codes "why"))) log)).valid
    ≡ true
rewording_undetected_example =
    rewording_undetected digest (codes "other") (some 9) (some (codes "why")) log log_valid

abbrev blank : AgentIdentityAuditEvent
blank = record genesis { event_hash = [] }

blanking_undetected_example :
    (verify_audit_chain digest (blank ∷ blank ∷ second_event ∷ [])).valid ≡ true
blanking_undetected_example =
    blanking_undetected digest genesis second_event [] (blank ∷ blank ∷ []) log_valid genesis_hashed
      second_hashed (refl, (refl, tt)) (omega arith)

abbrev empty_core : Value
empty_core = Value.object Fields.no_fields

abbrev requests : List Request
requests =
    Request.fetch (at 1 1) (at 1 2)
    ∷ Request.update (at 2 1) (at 2 2) Value.null
    ∷ Request.rollback (at 2 3) (at 3 0) 1 none
    ∷ []

served_log_valid_example :
    (verify_agent_audit_chain digest
      (codes "bot")
      (serve_all digest (codes "bot") requests no_agent)).valid
    ≡ true
served_log_valid_example =
    served_log_valid digest (codes "bot") requests (at 0 0) digest_hashed
      (refl, refl, (refl, refl, (refl, refl, tt)))

abbrev profile : AgentIdentityProfile
profile = record { agent_id = codes "bot"; version = 1; core = empty_core; updated_at = 4 }

abbrev bot : AgentStore
bot = record { identity = some profile; versions = (1, profile) ∷ []; audit = [] }

bot-IsCurrent : IsCurrent bot profile
unfolding get nat_ord
bot-IsCurrent = record { current = refl; stored = refl; newest = λ v q e. ground arith }

rollback_undoes_update_example :
    let (updated_store, q) =
      update_agent_identity digest (codes "bot") (at 5 1) (at 5 2) Value.null bot in
    IsNext bot updated_store profile q Value.null
    × (after : AgentStore) × (r : AgentIdentityProfile) × (rollback_agent_identity digest
          (codes "bot")
          (at 6 1)
          (at 6 2)
          1
          none
          updated_store
        ≡ some (after, r))
    × IsNext updated_store after q r empty_core
rollback_undoes_update_example =
    rollback_undoes_update digest (codes "bot") bot profile Value.null none (at 5 1) (at 5 2)
      (at 6 1) (at 6 2) bot-IsCurrent (omega arith)

abbrev proposal_request : CreatePromotionProposalRequest
proposal_request = record {
  id = none;
  proposal = codes "p";
  candidate_core = empty_core;
  reason = codes "r";
  risk_level = codes "high";
  source_event_ids = [];
}

abbrev decisions : List Decision
decisions = Decision.approval (at 20 1) (at 20 2) (codes "ann") ∷ Decision.rejection 21 none ∷ []

approval-IsGoverned_example :
    IsGoverned digest (default_for_agent (codes "bot") 9) empty_core (codes "high") bot (
      decide_all digest
        (default_for_agent (codes "bot") 9)
        decisions
        (record { proposal = from_request 3 10 (codes "bot") proposal_request; agent = bot }))
approval-IsGoverned_example =
    approval-IsGoverned digest (default_for_agent (codes "bot") 9) 3 10 (codes "bot")
      proposal_request bot decisions
