-- ===== src/Auth.antt =====
-- crates/mnemo-server/src/middleware/auth.rs, and `validate_grpc_auth` of grpc.rs, which repeats it for
-- gRPC: how a request gets its caller. A request runs up to the lookup in the cache, under its lock,
-- and if that misses, from the answer of the store on; in between, other requests may run. The
-- constant-time comparison of the crate `subtle`, SHA-256 of a key and the key store are parameters.
-- Each reading of the clock is an argument, in milliseconds; a header that is missing or no ASCII is
-- `none`.
pub mod Admission
pub mod Eviction
pub mod History
pub mod Revocation
use Prim.Native.Nat.Ordering.{eq}
use mnemo.Base.{
  ℕ, ◌-◌, ◌/◌, ◌+◌, ◌*◌, Bool, true, false, not, ◌&&◌, ◌||◌, if◌then◌else◌, ltb, ◌==◌, Option, none,
  some, List, [], ◌∷◌, length,
}
use mnemo.Base.Order.{Text, codes, text_ord, eqb}
use mnemo.BTreeMap.{BTreeMap}
use mnemo.BTreeMap
use mnemo.Models.ApiKey.{ApiKey, CallerContext, is_active, admin_bootstrap, anonymous}

pub record CachedKey : Type 0 where
  pub context : CallerContext
  pub active : Bool
  pub cached_at : ℕ

abbrev pub Cache : Type 0
Cache = BTreeMap Text CachedKey

-- The cache is threaded apart; `state_store` is whether there is a store.
pub record AuthConfig : Type 0 where
  pub enabled : Bool
  pub valid_keys : List Text
  pub state_store : Bool

abbrev pub key_cache_ttl_secs : ℕ
key_cache_ttl_secs = 30

abbrev pub key_cache_max_entries : ℕ
key_cache_max_entries = 10_000

pub record Request : Type 0 where
  pub path : Text
  pub authorization : Option Text
  pub x_api_key : Option Text

-- The request goes on with a caller's context, or is answered with 401.
pub data Outcome : Type 0 where
  proceed : CallerContext → Outcome
  unauthorized : Outcome

-- `Result<Option<ApiKey>>` of `get_api_key_by_hash`.
pub data Reply : Type 0 where
  found : ApiKey → Reply
  missing failed : Reply

-- `str::strip_prefix`
abbrev pub strip_prefix : Text → Text → Option Text
strip_prefix [] s = some s
strip_prefix (p ∷ ps) [] = none
strip_prefix (p ∷ ps) (c ∷ s) = if p == c then strip_prefix ps s else none

abbrev pub starts_with : Text → Text → Bool
starts_with s prefix = elim (strip_prefix prefix s) [ none ↦ false | some rest ↦ true ]

unfoldable pub is_exempt : Text → Bool
is_exempt path =
    eqb path (codes "/health")
    || eqb path (codes "/healthz")
    || eqb path (codes "/metrics")
    || starts_with path (codes "/_/")
    || eqb path (codes "/_")
    || eqb path (codes "/api/v1/openapi.json")
    || starts_with path (codes "/swagger-ui")

-- The key of the `authorization` header, else that of `x-api-key`.
unfoldable pub raw_key : Request → Option Text
raw_key req = elim req.authorization [
  | none ↦ req.x_api_key
  | some header ↦ elim (strip_prefix (codes "Bearer ") header) [
    | none ↦ req.x_api_key
    | some key ↦ some key
  ]
]

-- `age.num_seconds() < KEY_CACHE_TTL_SECS`: whole seconds; an entry of the future has age 0 here,
-- and a negative one in the source, which passes the test too.
abbrev pub is_fresh : ℕ → CachedKey → Bool
is_fresh now cached = ltb ((now - cached.cached_at) / 1000) key_cache_ttl_secs

abbrev pub context_of : ApiKey → CallerContext
context_of k = record { key_id = k.id; key_name = k.name; role = k.role; scope = k.scope }

-- A request after the lookup in the cache: answered, or about to ask the store for a hash.
pub data Progress : Type 0 where
  answered : Outcome → Progress
  asks : Text → Progress

-- The clock after the store's answer: for `is_active`, for `cached_at` and for `last_used_at`.
pub record Readings : Type 0 where
  pub judged : ℕ
  pub cached : ℕ
  pub used : ℕ

-- What the rest of a request does: its outcome, the cache after, and the key that it writes back to
-- the store.
pub record Effect : Type 0 where
  pub outcome : Outcome
  pub cache : Cache
  pub written : Option ApiKey

abbrev pub rejected : Cache → Effect
rejected cache = record { outcome = unauthorized; cache = cache; written = none }

module _ (ct_eq : Text → Text → Bool) (hash_api_key : Text → Text) where
  unfoldable pub constant_time_key_match : List Text → Text → Bool
  constant_time_key_match [] candidate = false
  constant_time_key_match (key ∷ keys) candidate =
      (length key == length candidate && ct_eq key candidate)
      || constant_time_key_match keys candidate

  -- A cached context that may be used without asking the store.
  unfoldable pub cached_context : ℕ → Cache → Text → Option CallerContext
  cached_context now cache key_hash = elim (BTreeMap.get cache key_hash) [
    | none ↦ none
    | some cached ↦ if is_fresh now cached && cached.active then some cached.context else none
  ]

  unfoldable pub scoped : ℕ → Cache → Text → Progress
  unfolding cached_context
  scoped now cache key_hash = elim (cached_context now cache key_hash) [
    | some context ↦ answered (proceed context)
    | none ↦ asks key_hash
  ]

  -- The boxed future: a request with a key.
  unfoldable pub with_key : AuthConfig → ℕ → Cache → Text → Progress
  unfolding constant_time_key_match scoped
  with_key config now cache key =
      if constant_time_key_match config.valid_keys key
      then answered (proceed admin_bootstrap)
      else if config.state_store
      then scoped now cache (hash_api_key key)
      else answered unauthorized

  -- A request to a path that is not exempt.
  unfoldable pub guarded : AuthConfig → ℕ → Cache → Request → Progress
  unfolding raw_key with_key
  guarded config now cache req = elim (raw_key req) [
    | none ↦ answered unauthorized
    | some key ↦ with_key config now cache key
  ]

  -- `AuthMiddleware::call`, up to the store and to the call of the inner service.
  unfoldable pub call : AuthConfig → ℕ → Cache → Request → Progress
  unfolding is_exempt guarded
  call config now cache req =
      if not config.enabled
      then answered (proceed admin_bootstrap)
      else if is_exempt req.path
      then answered (proceed anonymous)
      else guarded config now cache req

  -- `validate_grpc_auth`, up to the store; its metadata are the headers, and no path is exempt.
  unfoldable pub validate_grpc_auth : AuthConfig → ℕ → Cache → Request → Progress
  unfolding guarded
  validate_grpc_auth config now cache req =
      if not config.enabled
      then answered (proceed admin_bootstrap)
      else guarded config now cache req

-- The rest of a request, from the answer of the store on; the cache is as it is at the insertion.
unfoldable pub look_up : Readings → Reply → Cache → Text → Effect
look_up i (found k) cache key_hash =
    if is_active i.judged k
    then record {
      outcome = proceed (context_of k);
      cache =
          BTreeMap.insert cache key_hash
            (record { context = context_of k; active = true; cached_at = i.cached });
      written = some (record k { last_used_at = some i.used });
    }
    else rejected cache
look_up i missing cache key_hash = rejected cache
look_up i failed cache key_hash = rejected cache
