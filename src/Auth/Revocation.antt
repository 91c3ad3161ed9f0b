-- ===== src/Auth/Revocation.antt =====
-- The key store of crates/mnemo-storage/src/redis_store.rs and `revoke_api_key` of
-- crates/mnemo-server/src/routes.rs, against the write-back of a request that has read the key. The
-- store does not fail, and the ids that it holds parse.
use mnemo.Base.{ℕ, ◌≡◌, inl, inr, Bool-cases, true, if◌then◌else◌, ◌==◌, Option, none, some, arith}
use mnemo.Base.Order.{Text, text_ord}
use mnemo.Models.ApiKey.{ApiKey, admin, CallerContext, is_active, require_role, ok, forbidden}
use mnemo.Auth.{Cache, proceed, unauthorized, Readings, Reply, found, missing, context_of, look_up}
use mnemo.Auth.Eviction.{remove}

-- The JSON of each key by its id, and the index from hashes to ids.
pub record KeyStore : Type 0 where
  pub api_key : ℕ → Option ApiKey
  pub api_key_hash : Text → Option ℕ

unfoldable pub get_api_key_by_hash : KeyStore → Text → Reply
get_api_key_by_hash s hash = elim (s.api_key_hash hash) [
  | none ↦ missing
  | some id ↦ elim (s.api_key id) [ none ↦ missing | some key ↦ found key ]
]

unfoldable pub update_api_key : ApiKey → KeyStore → KeyStore
update_api_key key s = record s { api_key = λ id. if id == key.id then some key else s.api_key id }

-- What a request writes back, if anything.
abbrev pub write_back : Option ApiKey → KeyStore → KeyStore
unfolding update_api_key
write_back none s = s
write_back (some key) s = update_api_key key s

pub data RevokeAnswer : Type 0 where
  no_content not_allowed not_found : RevokeAnswer

pub record Revoked : Type 0 where
  pub answer : RevokeAnswer
  pub store : KeyStore
  pub cache : Cache

unfoldable pub revoke_api_key : CallerContext → ℕ → KeyStore → Cache → Revoked
unfolding update_api_key remove
revoke_api_key caller key_id s cache = elim (require_role caller admin) [
  | forbidden ↦ record { answer = not_allowed; store = s; cache = cache }
  | ok ↦ elim (s.api_key key_id) [
    | none ↦ record { answer = not_found; store = s; cache = cache }
    | some key ↦ record {
      answer = no_content;
      store = update_api_key (record key { revoked = true }) s;
      cache = remove key.key_hash cache;
    }
  ]
]

-- A request has the answer that the store holds the active key `k`; an administrator then revokes the
-- key, and the store refuses it; then the request writes back what it read. After this the store
-- holds `k` again, unrevoked, with the time of its use as the one change, and lets it through exactly
-- as long as `k` itself is active.
pub write_back_revives :
    (s : KeyStore) (k : ApiKey) (hash : Text) (caller : CallerContext) (i later : Readings)
    (cache other : Cache)
    → s.api_key_hash hash ≡ some k.id
    → s.api_key k.id ≡ some k
    → is_active i.judged k ≡ true
    → require_role caller admin ≡ ok
    → let read = look_up i (get_api_key_by_hash s hash) cache hash in
      let revoked = revoke_api_key caller k.id s read.cache in
      let after = write_back read.written revoked.store in
      (read.outcome ≡ proceed (context_of k))
      × (revoked.answer ≡ no_content)
      × ((look_up later (get_api_key_by_hash revoked.store hash) other hash).outcome ≡ unauthorized)
      × (get_api_key_by_hash after hash ≡ found (record k { last_used_at = some i.used }))
      × ((look_up later (get_api_key_by_hash after hash) other hash).outcome
          ≡ (if is_active later.judged k then proceed (context_of k) else unauthorized))
unfolding look_up get_api_key_by_hash revoke_api_key update_api_key is_active
write_back_revives s k hash caller i later cache other h e a r = (
  ground (arith, h, e, a, r),
  ground (arith, h, e, a, r),
  ground (arith, h, e, a, r),
  ground (arith, h, e, a, r),
  elim (Bool-cases (is_active later.judged k)) [
    | inl p ↦ ground (arith, h, e, a, r, p)
    | inr p ↦ ground (arith, h, e, a, r, p)
  ],
)
