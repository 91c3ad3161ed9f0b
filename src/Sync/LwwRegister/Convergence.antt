-- ===== src/Sync/LwwRegister/Convergence.antt =====
-- Merges and writes of `LWWRegister`, sync.rs.
use mnemo.Base.{◌≡◌, ◌≢◌, ap, false, arith}
use mnemo.Base.Order.{ltk, ltk_irrefl, ltk_asymm, ltk_trans, not_ltk_trans}
use mnemo.Sync.Hlc.{HlcTimestamp, hlc_ord}
use mnemo.Sync.LwwRegister.{LwwRegister, set, merge}

module _ {ℓ} {T : Type ℓ} where
  -- `merge` keeps one of the two registers, and no older timestamp than either; it is associative
  -- and idempotent.
  pub merge_newest :
      (a b c : LwwRegister T)
      → (ltk (merge a b).timestamp a.timestamp ≡ false)
        × (ltk (merge a b).timestamp b.timestamp ≡ false)
        × (merge (merge a b) c ≡ merge a (merge b c))
        × (merge a a ≡ a)
  unfolding merge
  merge_newest a b c =
      let x = a.timestamp in
      let y = b.timestamp in
      let z = c.timestamp in
      ground
        (arith, ltk_irrefl x, ltk_irrefl y, ltk_asymm x y, ltk_trans x y z, not_ltk_trans x y z)

  -- Two registers with different timestamps merge to the same register in either direction.
  pub register_merge_comm :
      (a b : LwwRegister T) → a.timestamp ≢ b.timestamp → merge a b ≡ merge b a
  unfolding merge
  register_merge_comm a b h = ground (
    arith,
    hlc_ord.eq_of_cmp a.timestamp b.timestamp,
    hlc_ord.swapped a.timestamp b.timestamp,
    hlc_ord.swapped a.timestamp b.timestamp,
  )

  -- With equal timestamps each side keeps its own value, so two registers with equal timestamps and
  -- different values stay different after they have merged each other.
  pub merge_tie :
      (a b : LwwRegister T) → a.timestamp ≡ b.timestamp → a.value ≢ b.value → merge a b ≢ merge b a
  unfolding merge
  merge_tie a b h n e =
      n (ground (arith, hlc_ord.cmp_refl b.timestamp, ap (λ (r : LwwRegister T). r.value) e))

  -- Two writes with different timestamps leave the same register, whether or not it takes them,
  -- in either order.
  pub set_comm :
      (r : LwwRegister T) (v w : T) (t u : HlcTimestamp)
      → t ≢ u
      → (set (set r v t).0 w u).0 ≡ (set (set r w u).0 v t).0
  unfolding set
  set_comm r v w t u n = ground (
    arith,
    hlc_ord.eq_of_cmp t u,
    hlc_ord.swapped t u,
    hlc_ord.swapped t u,
    hlc_ord.lt_trans r.timestamp t u,
    hlc_ord.lt_trans r.timestamp u t,
  )
