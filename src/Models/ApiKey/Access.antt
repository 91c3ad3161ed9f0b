-- ===== src/Models/ApiKey/Access.antt =====
-- What the checks of api_key.rs let through.
use mathlib.Core.List.{Memᴰ}
use mnemo.Base.{
  ℕ, ◌≤◌, ◌<◌, ◌≡◌, ◌↔◌, sym, Bool, true, false, none, some, List, [], ◌∷◌, any, ◌==◌, ==_iff,
  arith, Option-cases, Bool-cases, inl, inr,
}
use mnemo.Base.Order.{Text, text_ord, eqb, cmp_self}
use mnemo.Models.ApiKey.{
  ApiKeyRole, read, role_rank, ApiKeyScope, ApiKey, is_active, CallerContext, admin_bootstrap,
  anonymous, ok, require_role, require_user_access, require_agent_access,
}

mem-any {ℓ} :
    {A : Type ℓ} (p : A → Bool) (a : A)
    → ((x : A) → x ≡ a → p x ≡ true)
    → (xs : List A) → Memᴰ a xs
    → any p xs ≡ true
mem-any p a iff [] m = elim m [ ]
mem-any p a iff (x ∷ xs) (Memᴰ.head e) = ground (arith, iff x (sym e))
mem-any p a iff (x ∷ xs) (Memᴰ.tail m) = ground (arith, mem-any p a iff xs m)

any-mem {ℓ} :
    {A : Type ℓ} (p : A → Bool) (a : A)
    → ((x : A) → p x ≡ true → x ≡ a)
    → (xs : List A) → any p xs ≡ true
    → Memᴰ a xs
any-mem p a iff [] h = cc
any-mem p a iff (x ∷ xs) h = elim (Bool-cases (p x)) [
  | inl e ↦ Memᴰ.head (sym (iff x e))
  | inr e ↦ Memᴰ.tail (any-mem p a iff xs (ground arith))
]

-- `require_role` lets a caller through exactly when the role it holds is at least the required one,
-- in the order read, write, admin; so a caller who passes a check also passes every lower one.
pub require_role_iff :
    (c : CallerContext) (required lower : ApiKeyRole)
    → ((require_role c required ≡ ok) ↔ (role_rank required ≤ role_rank c.role))
      × (require_role c required ≡ ok
          → role_rank lower ≤ role_rank required
          → require_role c lower ≡ ok)
unfolding require_role
require_role_iff c required lower = ((λ h. ground arith, λ h. ground arith), λ h k. ground arith)

-- A caller without a scope reaches all users and all agents. One with a scope reaches exactly the
-- users on its list of allowed users and exactly the agents on its list of allowed agents, and all of
-- them where it has no such list.
pub require_access_iff :
    (c : CallerContext) (user : ℕ) (agent : Text)
    → (c.scope ≡ none → (require_user_access c user ≡ ok) × (require_agent_access c agent ≡ ok))
      × ((s : ApiKeyScope) (users : List ℕ)
          → c.scope ≡ some s
          → s.allowed_user_ids ≡ some users
          → (require_user_access c user ≡ ok) ↔ Memᴰ user users)
      × ((s : ApiKeyScope) (agents : List Text)
          → c.scope ≡ some s
          → s.allowed_agent_ids ≡ some agents
          → (require_agent_access c agent ≡ ok) ↔ Memᴰ agent agents)
      × ((s : ApiKeyScope)
          → c.scope ≡ some s
          → s.allowed_user_ids ≡ none
          → require_user_access c user ≡ ok)
      × ((s : ApiKeyScope)
          → c.scope ≡ some s
          → s.allowed_agent_ids ≡ none
          → require_agent_access c agent ≡ ok)
unfolding require_user_access require_agent_access
require_access_iff c user agent = (
  λ e. (ground arith, ground arith),
  λ s users e f. (
    λ h. any-mem (λ id. id == user) user (λ x. (==_iff x user).0) users (ground arith),
    λ m. ground (arith, mem-any (λ id. id == user) user (λ x. (==_iff x user).1) users m),
  ),
  λ s agents e f. (
    λ h.
        any-mem (λ id. eqb id agent) agent (λ x k. text_ord.eq_of_cmp x agent (ground arith)) agents
          (ground arith),
    λ m. ground (
      arith,
      mem-any (λ id. eqb id agent) agent (λ x k. ground (arith, cmp_self x agent k)) agents m,
    ),
  ),
  λ s e f. ground arith,
  λ s e f. ground arith,
)

-- A key is active exactly while it is not revoked and its expiry, if any, lies ahead; a key that is
-- active at a time was active at every earlier time.
pub is_active_iff :
    (now earlier : ℕ) (k : ApiKey)
    → ((is_active now k ≡ true)
        ↔ ((k.revoked ≡ false) × ((exp : ℕ) → k.expires_at ≡ some exp → now < exp)))
      × (earlier ≤ now → is_active now k ≡ true → is_active earlier k ≡ true)
unfolding is_active
is_active_iff now earlier k =
    ((λ h. (ground arith, λ exp e. ground arith), λ h. active h.0 h.1), λ e h. ground arith)
  where
    active :
        k.revoked ≡ false
        → ((exp : ℕ) → k.expires_at ≡ some exp → now < exp)
        → is_active now k ≡ true
    active r h = elim (Option-cases k.expires_at) [
      | inl e ↦ ground arith
      | inr (exp, e) ↦ ground (arith, h exp e)
    ]

-- The two contexts that no stored key backs are told apart by their ids: the anonymous one passes
-- no check above read, the bootstrap one passes every check, and neither has a scope.
pub sentinel_contexts :
    (required : ApiKeyRole) (user : ℕ) (agent : Text)
    → (require_role anonymous required ≡ ok → required ≡ read)
      × (require_role admin_bootstrap required ≡ ok)
      × (require_user_access admin_bootstrap user ≡ ok)
      × (require_agent_access admin_bootstrap agent ≡ ok)
unfolding require_role require_user_access require_agent_access anonymous admin_bootstrap
sentinel_contexts required user agent = ground arith
