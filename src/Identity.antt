-- ===== src/Identity.antt =====
-- The identity of agents, crates/mnemo-core/src/models/agent.rs: the proofs that an update carries
-- and the audit log. Here is what they share on digests.
pub mod Merkle
pub mod Proofs
pub mod Audit
pub mod History
pub mod Promotion
use mnemo.Base.{◌≡◌, ◌≢◌, ◌⊎◌, inl, inr, arith, true, false, Bool-cases}
use mnemo.Base.Order.{Text, text_ord, eqb}

-- Two different texts with one digest.
pub record Collision (digest : Text → Text) : Type 0 where
  pub one : Text
  pub two : Text
  pub different : one ≢ two
  pub one_digest : digest one ≡ digest two

-- Equal digests come from equal texts, or they collide.
pub same_or_Collision :
    (digest : Text → Text) (s t : Text) → digest s ≡ digest t → (s ≡ t) ⊎ Collision digest
same_or_Collision digest s t e = elim (Bool-cases (eqb s t)) [
  | inl p ↦ inl (ground (arith, text_ord.eq_of_cmp s t))
  | inr p ↦ inr (record {
    one = s;
    two = t;
    different = λ q. ground (arith, q, text_ord.cmp_refl s);
    one_digest = e;
  })
]
