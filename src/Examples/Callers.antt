-- ===== src/Examples/Callers.antt =====
-- Authentication at concrete requests.
use mnemo.Base.{ℕ, ◌≡◌, refl, true, false, none, some, List, [], ◌∷◌, if◌then◌else◌, ltb, map}
use mnemo.Base.Order.{Text, codes, text_ord, eqb, cmp_text}
use mnemo.BTreeMap
use mnemo.Models.ApiKey.{ApiKey, write, is_active, admin_bootstrap, require_role, has_at_least}
use mnemo.Auth.{
  AuthConfig, Request, Reply, found, missing, proceed, unauthorized, context_of, Readings, look_up,
  call, validate_grpc_auth,
}
use mnemo.Auth.Eviction.{evict_stale_cache_entries}
use mnemo.Auth.History.{Event, request, reply, sweep, revoke, serve}
use mnemo.Auth.Revocation.{
  KeyStore, get_api_key_by_hash, revoke_api_key, write_back, write_back_revives, no_content,
}

abbrev key : ApiKey
key = record {
  id = 7;
  name = codes "k";
  key_hash = codes "#secret";
  key_prefix = codes "sec";
  role = write;
  scope = none;
  created_by = none;
  created_at = 0;
  last_used_at = none;
  expires_at = none;
  revoked = false;
}

-- In place of SHA-256 a mark before the text, and a store that loses its one key at a time.
abbrev marked : Text → Text
marked t = b'#' ∷ t

abbrev store_at : ℕ → Text → Reply
store_at time hash = if ltb time 100_000 then found key else missing

abbrev config : AuthConfig
config = record { enabled = true; valid_keys = codes "root" ∷ []; state_store = true }

abbrev asked : Request
asked = record { path = codes "/x"; authorization = some (codes "Bearer secret"); x_api_key = none }

-- The first request is answered by the store, and meanwhile one over gRPC asks too; the next is
-- answered from the cache, and the last one asks again and finds the key gone.
abbrev events : List Event
events =
    request true 90_000 asked
    ∷ request false 90_001 asked
    ∷ reply 0 90_001 (record { judged = 90_002; cached = 90_003; used = 90_005 })
    ∷ request true 110_000 asked
    ∷ sweep 115_000
    ∷ revoke (codes "#secret")
    ∷ request true 116_000 asked
    ∷ reply 1 116_001 (record { judged = 116_001; cached = 116_001; used = 116_001 })
    ∷ []

outcomes :
    map (λ a. a.outcome) (serve eqb marked store_at config [] [] events)
    ≡ proceed (context_of key) ∷ proceed (context_of key) ∷ unauthorized ∷ []
unfolding serve call text_ord cmp_text BTreeMap.get validate_grpc_auth look_up is_active
    BTreeMap.insert evict_stale_cache_entries
outcomes = refl

abbrev keys : KeyStore
keys = record {
  api_key = λ id. if eqb (id ∷ []) (7 ∷ []) then some key else none;
  api_key_hash = λ hash. if eqb hash (codes "#secret") then some 7 else none;
}

abbrev clock : Readings
clock = record { judged = 90_002; cached = 90_003; used = 90_005 }

write_back_revives_example :
    let read = look_up clock (get_api_key_by_hash keys (codes "#secret")) [] (codes "#secret") in
    let revoked = revoke_api_key admin_bootstrap 7 keys read.cache in
    let after = write_back read.written revoked.store in
    (read.outcome ≡ proceed (context_of key))
    × (revoked.answer ≡ no_content)
    × ((look_up clock
          (get_api_key_by_hash revoked.store (codes "#secret"))
          []
          (codes "#secret")).outcome
        ≡ unauthorized)
    × (get_api_key_by_hash after (codes "#secret")
        ≡ found (record key { last_used_at = some 90_005 }))
    × ((look_up clock (get_api_key_by_hash after (codes "#secret")) [] (codes "#secret")).outcome
        ≡ proceed (context_of key))
unfolding is_active require_role has_at_least admin_bootstrap cmp_text text_ord
write_back_revives_example =
    write_back_revives keys key (codes "#secret") admin_bootstrap clock clock [] [] refl refl refl
      refl
