-- ===== src/Auth/History.antt =====
-- Requests over HTTP (auth.rs) and gRPC (grpc.rs), sweeps and revocations on one cache, with a store
-- that changes. A request that asks the store waits, and other events may come before the answer.
use mnemo.Base.{ℕ, zero, suc, ◌≤◌, Bool, true, false, Option, none, some, List, [], ◌∷◌, ◌++◌, All}
use mnemo.Base.Order.{Text}
use mnemo.Auth.{
  Cache, AuthConfig, Request, Outcome, Progress, answered, asks, Readings, Reply, look_up, call,
  validate_grpc_auth,
}
use mnemo.Auth.Admission.{Justified, IsOwnHash}
use mnemo.Auth.Eviction.{remove, evict_stale_cache_entries}

-- A request whose answer from the store is to come, `http` telling HTTP from gRPC.
pub record Waiting : Type 0 where
  pub http : Bool
  pub req : Request
  pub key_hash : Text

pub record Answer : Type 0 where
  pub http : Bool
  pub at : ℕ
  pub req : Request
  pub outcome : Outcome

-- What happens: a request, looked up in the cache at a time; the rest of one that waits, by its
-- position, with the time at which the store was read; the periodic sweep; and the removal of a key
-- that is revoked or rotated.
pub data Event : Type 0 where
  request : Bool → ℕ → Request → Event
  reply : ℕ → ℕ → Readings → Event
  sweep : ℕ → Event
  revoke : Text → Event

-- The clock never runs back: a lookup is not before the last lookup or insertion, nor is an
-- insertion, and the readings of one request follow each other.
abbrev pub IsOrdered : ℕ → List Event → Type 0
IsOrdered last [] = Unit
IsOrdered last (request http now req ∷ rest) = (last ≤ now) × IsOrdered now rest
IsOrdered last (reply n read i ∷ rest) =
    (read ≤ i.judged)
    × (i.judged ≤ i.cached)
    × (i.cached ≤ i.used)
    × (last ≤ i.cached)
    × IsOrdered i.cached rest
IsOrdered last (sweep now ∷ rest) = IsOrdered last rest
IsOrdered last (revoke key_hash ∷ rest) = IsOrdered last rest

-- The request at a position, and the others.
abbrev pick : ℕ → List Waiting → Option (Waiting × List Waiting)
pick n [] = none
pick zero (w ∷ ws) = some (w, ws)
pick (suc n) (w ∷ ws) = elim (pick n ws) [ none ↦ none | some q ↦ some (q.0, w ∷ q.1) ]

module _ (ct_eq : Text → Text → Bool) (hash_api_key : Text → Text)
    (store_at : ℕ → Text → Reply) where
  abbrev asked : AuthConfig → Bool → ℕ → Cache → Request → Progress
  asked config true now cache req = call ct_eq hash_api_key config now cache req
  asked config false now cache req = validate_grpc_auth ct_eq hash_api_key config now cache req

  -- The answers, in order.
  unfoldable pub serve : AuthConfig → Cache → List Waiting → List Event → List Answer
  unfolding remove
  serve config cache waiting [] = []
  serve config cache waiting (request http now req ∷ rest) =
      elim (asked config http now cache req) [
        | answered outcome ↦
            record { http = http; at = now; req = req; outcome = outcome }
            ∷ serve config cache waiting rest
        | asks key_hash ↦
            serve config cache
              (waiting ++ record { http = http; req = req; key_hash = key_hash } ∷ []) rest
      ]
  serve config cache waiting (reply n read i ∷ rest) = elim (pick n waiting) [
    | none ↦ serve config cache waiting rest
    | some q ↦
        let e = look_up i (store_at read q.0.key_hash) cache q.0.key_hash in
        record { http = q.0.http; at = i.used; req = q.0.req; outcome = e.outcome }
        ∷ serve config e.cache q.1 rest
  ]
  serve config cache waiting (sweep now ∷ rest) =
      serve config (evict_stale_cache_entries now cache) waiting rest
  serve config cache waiting (revoke key_hash ∷ rest) =
      serve config (remove key_hash cache) waiting rest

  abbrev IsOwn : Waiting → Type 0
  IsOwn w = IsOwnHash ct_eq hash_api_key store_at w.req w.key_hash

  abbrev ArePicked : Option (Waiting × List Waiting) → Type 0
  ArePicked none = Unit
  ArePicked (some q) = IsOwn q.0 × All IsOwn q.1

  abbrev pub IsJustified : AuthConfig → Answer → Type 0
  IsJustified config a = Justified ct_eq hash_api_key store_at config a.http a.at a.req a.outcome
