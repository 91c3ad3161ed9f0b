-- ===== src/Identity/History/Chain.antt =====
-- The audit log that the operations of redis_store.rs on an agent's identity build, against
-- `verify_audit_chain` of agent.rs.
use mnemo.Base.{
  ℕ, ◌+◌, ◌≡◌, refl, sym, ap, subst, ◌∙◌, true, false, Option, none, some, List, [], ◌∷◌, ◌++◌, All,
  All-append, All-imp, arith, Option-cases, inl, inr,
}
use mnemo.Base.Order.{Text, nat_ord, text_ord, eqb}
use mnemo.BTreeMap.{get}
use mnemo.Identity.Proofs.{Value}
use mnemo.Identity.Audit.{
  AgentIdentityAuditAction, AgentIdentityAuditEvent, hash_input, compute_hash, verify_audit_chain,
}
use mnemo.Identity.Audit.Links.{IsLinked, verify_audit_chain_iff, IsChain-IsLinked}
use mnemo.Identity.History.{
  AgentStore, Stamp, is_before, stamp_of, zadd, latest_hash, persist_identity_snapshot, audit_event,
  append_identity_audit, get_agent_identity, update_agent_identity, rollback_agent_identity,
  verify_agent_audit_chain, new,
}

-- The requests for an agent's identity, each with the two stamps that it may use.
pub data Request : Type 0 where
  fetch : Stamp → Stamp → Request
  update : Stamp → Stamp → Value → Request
  rollback : Stamp → Stamp → ℕ → Option Text → Request

-- The stamps rise, within a request and from one to the next.
abbrev pub Rising : Stamp → List Request → Type 0
Rising last [] = Unit
Rising last (Request.fetch first second ∷ requests) =
    (is_before last first ≡ true) × (is_before first second ≡ true) × Rising second requests
Rising last (Request.update first second core ∷ requests) =
    (is_before last first ≡ true) × (is_before first second ≡ true) × Rising second requests
Rising last (Request.rollback first second target reason ∷ requests) =
    (is_before last first ≡ true) × (is_before first second ≡ true) × Rising second requests

abbrev pub AtMost : Stamp → AgentIdentityAuditEvent → Type 0
AtMost last e = is_before last (stamp_of e) ≡ false

before_next :
    (last stamp x : Stamp)
    → is_before last x ≡ false
    → is_before last stamp ≡ true
    → is_before x stamp ≡ true
before_next last stamp x a b = ground arith

later_bound :
    (last stamp x : Stamp)
    → is_before last x ≡ false
    → is_before last stamp ≡ true
    → is_before stamp x ≡ false
later_bound last stamp x a b = ground arith

zadd-latest :
    (e : AgentIdentityAuditEvent) (events : List AgentIdentityAuditEvent)
    → All (λ x. is_before (stamp_of x) (stamp_of e) ≡ true) events
    → zadd e events ≡ events ++ e ∷ []
unfolding zadd
zadd-latest e [] a = refl
zadd-latest e (x ∷ events) a = ground (arith, zadd-latest e events)

module _ (sha256_hex : Text → Text) (agent_id : Text) where
  abbrev rolled_back_store : Stamp → Stamp → ℕ → Option Text → AgentStore → AgentStore
  rolled_back_store first second target reason s =
      elim (rollback_agent_identity sha256_hex agent_id first second target reason s) [
        | none ↦ s
        | some (after, profile) ↦ after
      ]

  -- The store after a request; one that fails changes nothing.
  abbrev serve : Request → AgentStore → AgentStore
  serve (Request.fetch first second) s = (get_agent_identity sha256_hex agent_id first s).0
  serve (Request.update first second core) s =
      (update_agent_identity sha256_hex agent_id first second core s).0
  serve (Request.rollback first second target reason) s =
      rolled_back_store first second target reason s

  abbrev pub serve_all : List Request → AgentStore → AgentStore
  serve_all [] s = s
  serve_all (r ∷ requests) s = serve_all requests (serve r s)

module _ (sha256_hex : Text → Text) where
  IsLinked-snoc :
      (i : ℕ) (p e : AgentIdentityAuditEvent) (events : List AgentIdentityAuditEvent)
      → IsLinked sha256_hex i (some p) events
      → e.event_hash ≡ compute_hash sha256_hex e
      → e.prev_hash ≡ latest_hash (p ∷ events)
      → IsLinked sha256_hex i (some p) (events ++ e ∷ [])
  unfolding latest_hash
  IsLinked-snoc i p e [] h own link = (own, link, tt)
  IsLinked-snoc i p e (f ∷ events) h own link =
      (h.0, h.1, IsLinked-snoc (i + 1) f e events (h.2) own link)

  first_snoc :
      (e : AgentIdentityAuditEvent) (events : List AgentIdentityAuditEvent)
      → IsLinked sha256_hex 0 none events
      → e.event_hash ≡ compute_hash sha256_hex e
      → e.prev_hash ≡ latest_hash events
      → IsLinked sha256_hex 0 none (events ++ e ∷ [])
  unfolding latest_hash
  first_snoc e [] h own link = (own, ground arith, tt)
  first_snoc e (f ∷ events) h own link = (h.0, h.1, IsLinked-snoc 1 f e events (h.2) own link)

  -- The log is linked from its first event on, and no event is later than `last`.
  pub record IsLog (last : Stamp) (s : AgentStore) : Type 0 where
    pub linked : IsLinked sha256_hex 0 none s.audit
    pub past : All (AtMost last) s.audit

  module _ (agent_id : Text) where
    append-IsLog :
        (last stamp : Stamp) (action : AgentIdentityAuditAction) (from : Option ℕ) (to : ℕ)
        (undone : Option ℕ) (reason : Option Text) (s : AgentStore)
        → is_before last stamp ≡ true
        → IsLog last s
        → IsLog stamp
            (append_identity_audit sha256_hex agent_id stamp action from to undone reason s)
    unfolding append_identity_audit audit_event compute_hash hash_input
    append-IsLog last stamp action from to undone reason s later log =
        let e : AgentIdentityAuditEvent =
          audit_event sha256_hex agent_id stamp action from to undone reason
            (latest_hash s.audit) in
        let placed =
          zadd-latest e s.audit
            (All-imp _ _ (λ x h. before_next last stamp (stamp_of x) h later) s.audit log.past) in
        record {
          linked =
              subst (IsLinked sha256_hex 0 none) (sym placed)
                (first_snoc e s.audit log.linked refl refl);
          past = subst (All (AtMost stamp)) (sym placed) (
              All-append (AtMost stamp) s.audit (e ∷ [])
                (All-imp _ _ (λ x h. later_bound last stamp (stamp_of x) h later) s.audit log.past)
                (ground arith, tt));
        }

    weaken-IsLog :
        (last stamp : Stamp) (s : AgentStore)
        → is_before last stamp ≡ true
        → IsLog last s
        → IsLog stamp s
    weaken-IsLog last stamp s later log = record {
      linked = log.linked;
      past = All-imp _ _ (λ x h. later_bound last stamp (stamp_of x) h later) s.audit log.past;
    }

    fetched-IsLog :
        (last stamp : Stamp) (s : AgentStore)
        → is_before last stamp ≡ true
        → IsLog last s
        → IsLog stamp (get_agent_identity sha256_hex agent_id stamp s).0
    unfolding get_agent_identity persist_identity_snapshot
    fetched-IsLog last stamp s later log = elim (Option-cases s.identity) [
      | inr (p, e) ↦ rw (e, get_agent_identity) (weaken-IsLog last stamp s later log)
      | inl e ↦
          rw (e, get_agent_identity)
            (append-IsLog last stamp AgentIdentityAuditAction.created none _ none none
              (persist_identity_snapshot (new agent_id stamp.now) s) later
              (record { linked = log.linked; past = log.past }))
    ]

    updated-IsLog :
        (last first second : Stamp) (core : Value) (s : AgentStore)
        → is_before last first ≡ true
        → is_before first second ≡ true
        → IsLog last s
        → IsLog second (update_agent_identity sha256_hex agent_id first second core s).0
    unfolding update_agent_identity persist_identity_snapshot
    updated-IsLog last first second core s l1 l2 log =
        let known : IsLog first _ = fetched-IsLog last first s l1 log in
        append-IsLog first second AgentIdentityAuditAction.updated _ _ none none _ l2
          (record { linked = known.linked; past = known.past })

    rolled-IsLog :
        (last first second : Stamp) (target : ℕ) (reason : Option Text) (s : AgentStore)
        → is_before last first ≡ true
        → is_before first second ≡ true
        → IsLog last s
        → IsLog second (rolled_back_store sha256_hex agent_id first second target reason s)
    unfolding rollback_agent_identity persist_identity_snapshot
    rolled-IsLog last first second target reason s l1 l2 log =
        elim (Option-cases (get s.versions target)) [
          | inl p ↦
              rw (p, rolled_back_store, rollback_agent_identity)
                (weaken-IsLog first second s l2 (weaken-IsLog last first s l1 log))
          | inr (profile, p) ↦
              let known : IsLog first _ = fetched-IsLog last first s l1 log in
              rw (p, rolled_back_store, rollback_agent_identity)
                (append-IsLog first second AgentIdentityAuditAction.rolled_back _ _ (some target)
                  reason _ l2 (record { linked = known.linked; past = known.past }))
        ]

    served-IsLog :
        (requests : List Request) (last : Stamp) (s : AgentStore)
        → Rising last requests
        → IsLog last s
        → IsLinked sha256_hex 0 none (serve_all sha256_hex agent_id requests s).audit
    served-IsLog [] last s r log = log.linked
    served-IsLog (Request.fetch first second ∷ requests) last s r log =
        served-IsLog requests second _ (r.2)
          (weaken-IsLog first second _ (r.1) (fetched-IsLog last first s (r.0) log))
    served-IsLog (Request.update first second core ∷ requests) last s r log =
        served-IsLog requests second _ (r.2)
          (updated-IsLog last first second core s (r.0) (r.1) log)
    served-IsLog (Request.rollback first second target reason ∷ requests) last s r log =
        served-IsLog requests second _ (r.2)
          (rolled-IsLog last first second target reason s (r.0) (r.1) log)

-- An agent that nothing is stored of.
abbrev pub no_agent : AgentStore
no_agent = record { identity = none; versions = []; audit = [] }

linked_valid :
    (sha256_hex : Text → Text) (events : List AgentIdentityAuditEvent)
    → ((s : Text) → eqb (sha256_hex s) [] ≡ false)
    → IsLinked sha256_hex 0 none events
    → (verify_audit_chain sha256_hex events).valid ≡ true
unfolding compute_hash
linked_valid sha256_hex [] hashed h = (verify_audit_chain_iff sha256_hex []).1 tt
linked_valid sha256_hex (e ∷ events) hashed h = (verify_audit_chain_iff sha256_hex (e ∷ events)).1 (
    (IsChain-IsLinked sha256_hex 0 e events (ap (λ x. eqb x []) (h.0) ∙ hashed (hash_input e))).1 h)

-- If no digest is empty, and the stamps of the requests rise, in time or at one time in id, the
-- audit log that any requests to fetch, update and roll back an identity leave is valid.
pub served_log_valid :
    (sha256_hex : Text → Text) (agent_id : Text) (requests : List Request) (last : Stamp)
    → ((s : Text) → eqb (sha256_hex s) [] ≡ false)
    → Rising last requests
    → (verify_agent_audit_chain sha256_hex agent_id
        (serve_all sha256_hex agent_id requests no_agent)).valid
      ≡ true
unfolding verify_agent_audit_chain
served_log_valid sha256_hex agent_id requests last hashed r =
    linked_valid sha256_hex _ hashed (
      served-IsLog sha256_hex agent_id requests last no_agent r (record { linked = tt; past = tt }))
