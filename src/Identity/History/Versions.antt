-- ===== src/Identity/History/Versions.antt =====
-- The versions that redis_store.rs keeps of an agent's identity.
use mnemo.Base.{
  ℕ, ◌+◌, ◌≤◌, ◌<◌, ◌≡◌, refl, sym, ap, subst, ◌∙◌, ◌==◌, Option, none, some, arith, add_u64,
  u64_mod, Bool-cases, inl, inr,
}
use mnemo.Base.Order.{Text, nat_ord}
use mnemo.BTreeMap.{get, insert}
use mnemo.BTreeMap.Lookup.{get-insert}
use mnemo.Identity.Proofs.{Value}
use mnemo.Identity.Audit.{updated, rolled_back}
use mnemo.Identity.History.{
  AgentIdentityProfile, AgentStore, Stamp, persist_identity_snapshot, append_identity_audit,
  get_agent_identity, update_agent_identity, rollback_agent_identity, apply_update,
}

-- The identity that is current is the one stored at its version, and no version stored is higher.
pub record IsCurrent (s : AgentStore) (p : AgentIdentityProfile) : Type 0 where
  pub current : s.identity ≡ some p
  pub stored : get s.versions p.version ≡ some p
  pub newest : (v : ℕ) (q : AgentIdentityProfile) → get s.versions v ≡ some q → v ≤ p.version

-- No version is lost or changed.
abbrev pub KeepsVersions : AgentStore → AgentStore → Type 0
KeepsVersions s after =
    (v : ℕ) (q : AgentIdentityProfile) → get s.versions v ≡ some q → get after.versions v ≡ some q

-- What a change of the identity leaves: a new current version, the next one, with this core.
pub record IsNext (s after : AgentStore) (p q : AgentIdentityProfile) (core : Value) : Type 0 where
  pub next_current : IsCurrent after q
  pub next : q.version ≡ p.version + 1
  pub next_core : q.core ≡ core
  pub kept : KeepsVersions s after

module _ (sha256_hex : Text → Text) (agent_id : Text) where
  persisted-IsCurrent :
      (p : AgentIdentityProfile) (s after : AgentStore)
      → ((v : ℕ) (q : AgentIdentityProfile) → get s.versions v ≡ some q → v ≤ p.version)
      → after.identity ≡ some p
      → after.versions ≡ insert s.versions p.version p
      → IsCurrent after p
  unfolding nat_ord
  persisted-IsCurrent p s after low i v = record {
    current = i;
    stored =
        ap (λ m. get m p.version) v ∙ ground (arith, get-insert s.versions p.version p p.version);
    newest = λ w q e. elim (Bool-cases (w == p.version)) [
      | inl same ↦ ground arith
      | inr other ↦
          low w q (ground (arith, ap (λ m. get m w) v, get-insert s.versions p.version p w))
    ];
  }

  persisted-KeepsVersions :
      (p : AgentIdentityProfile) (s after : AgentStore)
      → ((v : ℕ) (q : AgentIdentityProfile) → get s.versions v ≡ some q → v < p.version)
      → after.versions ≡ insert s.versions p.version p
      → KeepsVersions s after
  unfolding nat_ord
  persisted-KeepsVersions p s after low v w q e =
      ground (arith, low w q e, ap (λ m. get m w) v, get-insert s.versions p.version p w)

  next_version : (v : ℕ) → v + 1 < u64_mod → add_u64 v 1 ≡ v + 1
  next_version v h = omega arith

  module _ (s : AgentStore) (p : AgentIdentityProfile) (c : IsCurrent s p)
      (room : p.version + 1 < u64_mod) (first second : Stamp) where
    changed-IsNext :
        (q : AgentIdentityProfile) (after : AgentStore) (core : Value)
        → q.version ≡ add_u64 p.version 1
        → q.core ≡ core
        → after.identity ≡ some q
        → after.versions ≡ insert s.versions q.version q
        → IsNext s after p q core
    changed-IsNext q after core v e i m =
        let next : q.version ≡ p.version + 1 = v ∙ next_version p.version room in
        record {
          next_current =
              persisted-IsCurrent q s after (λ w x h. omega (arith, c.newest w x h, next)) i m;
          next = next;
          next_core = e;
          kept = persisted-KeepsVersions q s after (λ w x h. omega (arith, c.newest w x h, next)) m;
        }

    fetched : get_agent_identity sha256_hex agent_id first s ≡ (s, p)
    unfolding get_agent_identity
    fetched = ground (arith, c.current)

    updated-IsNext :
        (core : Value)
        → let (after, q) = update_agent_identity sha256_hex agent_id first second core s in
          IsNext s after p q core
    unfolding update_agent_identity append_identity_audit persist_identity_snapshot apply_update
    updated-IsNext core =
        subst
          (λ (r : AgentStore × AgentIdentityProfile).
            let q = apply_update core second.now r.1 in
            IsNext s
              (append_identity_audit sha256_hex agent_id second updated (some r.1.version) q.version
                none none (persist_identity_snapshot q r.0))
              p q core)
          (sym fetched) (changed-IsNext _ _ core refl refl refl refl)

    -- What a rollback makes of the profile of the target version.
    abbrev rolled : AgentIdentityProfile → AgentStore × AgentIdentityProfile → AgentIdentityProfile
    rolled target r = record target {
      agent_id = agent_id;
      version = add_u64 r.1.version 1;
      updated_at = second.now;
    }

    rolled-IsNext :
        (target : ℕ) (reason : Option Text) (t : AgentIdentityProfile)
        → get s.versions target ≡ some t
        → (after : AgentStore) × (q : AgentIdentityProfile) × (rollback_agent_identity sha256_hex
              agent_id first second target reason s
            ≡ some (after, q))
          × IsNext s after p q t.core
    unfolding rollback_agent_identity append_identity_audit persist_identity_snapshot
    rolled-IsNext target reason t e = (
      _,
      rolled t (get_agent_identity sha256_hex agent_id first s),
      rw (e, rollback_agent_identity) refl,
      subst
          (λ (r : AgentStore × AgentIdentityProfile).
            let q = rolled t r in
            IsNext s
              (append_identity_audit sha256_hex agent_id second rolled_back (some r.1.version)
                q.version (some target) reason (persist_identity_snapshot q r.0))
              p q t.core)
          (sym fetched) (changed-IsNext _ _ t.core refl refl refl refl),
    )

-- For an agent whose identity is current, below the last two versions of a u64, an update makes the
-- next version with its core, a rollback to the version before then makes the next one again with the
-- core from before the update, and both keep every version stored.
pub rollback_undoes_update :
    (sha256_hex : Text → Text) (agent_id : Text) (s : AgentStore) (p : AgentIdentityProfile)
    (core : Value) (reason : Option Text) (a b c d : Stamp)
    → IsCurrent s p
    → p.version + 2 < u64_mod
    → let (updated_store, q) = update_agent_identity sha256_hex agent_id a b core s in
      IsNext s updated_store p q core
      × (after : AgentStore) × (r : AgentIdentityProfile) × (rollback_agent_identity sha256_hex
            agent_id c d p.version reason updated_store
          ≡ some (after, r))
      × IsNext updated_store after q r p.core
rollback_undoes_update sha256_hex agent_id s p core reason a b c d now room =
    let next = updated-IsNext sha256_hex agent_id s p now (omega (arith, room)) a b core in
    let (after, r, e, again) =
      rolled-IsNext sha256_hex agent_id _ _ next.next_current (omega (arith, room, next.next)) c d
        p.version reason p (next.kept p.version p now.stored) in
    (next, after, r, e, again)
