-- ===== src/Models/ApiKey.antt =====
-- crates/mnemo-core/src/models/api_key.rs. Ids are numbers, instants are numbers of milliseconds,
-- and the reading of the clock is an argument; SHA-256 is not modelled here.
pub mod Access
use Prim.Native.Nat.Ordering.{eq}
use mnemo.Base.{
  ℕ, ◌+◌, Bool, true, false, not, if◌then◌else◌, leb, ltb, ◌==◌, Option, none, some, List, [], ◌∷◌,
  ◌++◌, any, length, take, get_or, arith, ◌≡◌,
}
use mnemo.Base.Order.{Text, codes, text_ord, eqb}
use mnemo.Models.Classification.{Classification, restricted}

pub data ApiKeyRole : Type 0 where
  read write admin : ApiKeyRole

abbrev pub role_rank : ApiKeyRole → ℕ
role_rank read = 0
role_rank write = 1
role_rank admin = 2

unfoldable pub has_at_least : ApiKeyRole → ApiKeyRole → Bool
has_at_least role required = leb (role_rank required) (role_rank role)

pub record ApiKeyScope : Type 0 where
  pub allowed_user_ids : Option (List ℕ)
  pub allowed_agent_ids : Option (List Text)
  pub max_classification : Option Classification

unfoldable pub allows_user : ApiKeyScope → ℕ → Bool
allows_user s user_id = elim s.allowed_user_ids [
  | none ↦ true
  | some ids ↦ any (λ id. id == user_id) ids
]

unfoldable pub allows_agent : ApiKeyScope → Text → Bool
allows_agent s agent_id = elim s.allowed_agent_ids [
  | none ↦ true
  | some ids ↦ any (λ id. eqb id agent_id) ids
]

unfoldable pub effective_max_classification : ApiKeyScope → Classification
effective_max_classification s = get_or s.max_classification restricted

pub record ApiKey : Type 0 where
  pub id : ℕ
  pub name : Text
  pub key_hash : Text
  pub key_prefix : Text
  pub role : ApiKeyRole
  pub scope : Option ApiKeyScope
  pub created_by : Option Text
  pub created_at : ℕ
  pub last_used_at : Option ℕ
  pub expires_at : Option ℕ
  pub revoked : Bool

-- `is_active` at the time `now`.
unfoldable pub is_active : ℕ → ApiKey → Bool
is_active now k =
    if k.revoked
    then false
    else elim k.expires_at [ none ↦ true | some exp ↦ if leb exp now then false else true ]

pub record CallerContext : Type 0 where
  pub key_id : ℕ
  pub key_name : Text
  pub role : ApiKeyRole
  pub scope : Option ApiKeyScope

abbrev pub bootstrap_sentinel_uuid : ℕ
bootstrap_sentinel_uuid = 0x0000_0000_0000_4000_8000_0000_0000_0001

abbrev pub anonymous_sentinel_uuid : ℕ
anonymous_sentinel_uuid = 0x0000_0000_0000_4000_8000_0000_0000_0002

unfoldable pub admin_bootstrap : CallerContext
admin_bootstrap = record {
  key_id = bootstrap_sentinel_uuid;
  key_name = codes "bootstrap";
  role = admin;
  scope = none;
}

unfoldable pub anonymous : CallerContext
anonymous = record {
  key_id = anonymous_sentinel_uuid;
  key_name = codes "anonymous";
  role = read;
  scope = none;
}

unfoldable pub is_bootstrap : CallerContext → Bool
is_bootstrap c = c.key_id == bootstrap_sentinel_uuid

unfoldable pub is_anonymous : CallerContext → Bool
is_anonymous c = c.key_id == anonymous_sentinel_uuid

-- `Result<(), MnemoError>` of the checks: the one error is `Forbidden`.
pub data Permission : Type 0 where
  ok forbidden : Permission

unfoldable pub require_role : CallerContext → ApiKeyRole → Permission
unfolding has_at_least
require_role c required = if has_at_least c.role required then ok else forbidden

unfoldable pub require_user_access : CallerContext → ℕ → Permission
unfolding allows_user
require_user_access c user_id = elim c.scope [
  | none ↦ ok
  | some scope ↦ if not (allows_user scope user_id) then forbidden else ok
]

unfoldable pub require_agent_access : CallerContext → Text → Permission
unfolding allows_agent
require_agent_access c agent_id = elim c.scope [
  | none ↦ ok
  | some scope ↦ if not (allows_agent scope agent_id) then forbidden else ok
]

unfoldable pub max_classification : CallerContext → Classification
unfolding effective_max_classification
max_classification c = elim c.scope [ none ↦ restricted | some s ↦ effective_max_classification s ]

-- `key_prefix`, of an ASCII key.
unfoldable pub key_prefix : Text → Text
key_prefix raw = if ltb 12 (length raw) then take 12 raw ++ codes "..." else raw
