-- ===== src/Auth/Admission.antt =====
-- Who is let through by one request of auth.rs or grpc.rs, and what it leaves in the cache.
use mnemo.Base.{
  ℕ, ◌+◌, ◌<◌, ◌≤◌, ◌≡◌, refl, subst, ◌⊎◌, ◌&&◌, Bool, true, false, not, if◌then◌else◌, some, All,
  All-imp, arith, Bool-cases, Option-cases, inl, inr,
}
use mnemo.Base.Order.{Text, text_ord}
use mnemo.BTreeMap
use mnemo.Models.ApiKey.{ApiKey, CallerContext, is_active, admin_bootstrap, anonymous}
use mnemo.Auth.{
  CachedKey, Cache, is_fresh, AuthConfig, Request, Outcome, proceed, unauthorized, Progress,
  answered, asks, Readings, Reply, found, missing, failed, is_exempt, raw_key, context_of,
  constant_time_key_match, cached_context, look_up, scoped, with_key, guarded, call,
  validate_grpc_auth,
}
use mnemo.BTreeMap.Entries.{get-All, insert-All}

Reply-cases : (r : Reply) → ((k : ApiKey) × (r ≡ found k)) ⊎ (r ≡ missing) ⊎ (r ≡ failed)
Reply-cases (found k) = inl (k, refl)
Reply-cases missing = inr (inl refl)
Reply-cases failed = inr (inr refl)

not-false : (b : Bool) → not b ≡ true → b ≡ false
not-false b h = ground arith

module _ (ct_eq : Text → Text → Bool) (hash_api_key : Text → Text)
    (store_at : ℕ → Text → Reply) where
  -- The store, read at `read`, answered with a key with this hash, which was active at `judged`, not
  -- earlier and not after `latest`, and gives this context.
  pub record Vouched (latest : ℕ) (key_hash : Text) (context : CallerContext) : Type 0 where
    pub read : ℕ
    pub judged : ℕ
    pub key : ApiKey
    pub held : store_at read key_hash ≡ found key
    pub was_active : is_active judged key ≡ true
    pub gives : context ≡ context_of key
    pub read_first : read ≤ judged
    pub in_time : judged ≤ latest

  -- An entry of the cache comes from the store and was cached after that, `last` at the latest.
  pub record IsBacked (last : ℕ) (e : Text × CachedKey) : Type 0 where
    pub vouched : Vouched e.1.cached_at e.0 e.1.context
    pub past : e.1.cached_at ≤ last

  -- Where the context of a request may come from, `can_be_exempt` telling HTTP from gRPC: of the
  -- last two, one is an entry of the cache, and the other the answer of the store to the request.
  pub data Grounds (config : AuthConfig) (can_be_exempt : Bool) (now : ℕ) (req : Request)
      (context : CallerContext) : Type 0 where
    switched_off :
        config.enabled ≡ false
        → context ≡ admin_bootstrap
        → Grounds config can_be_exempt now req context
    exempt :
        can_be_exempt ≡ true
        → is_exempt req.path ≡ true
        → context ≡ anonymous
        → Grounds config can_be_exempt now req context
    bootstrap_key :
        (key : Text)
        → raw_key req ≡ some key
        → constant_time_key_match ct_eq hash_api_key config.valid_keys key ≡ true
        → context ≡ admin_bootstrap
        → Grounds config can_be_exempt now req context
    cached_key :
        (key : Text) (cached_at : ℕ)
        → raw_key req ≡ some key
        → cached_at ≤ now
        → now < cached_at + 30_000
        → Vouched cached_at (hash_api_key key) context
        → Grounds config can_be_exempt now req context
    stored_key :
        (key : Text)
        → raw_key req ≡ some key
        → Vouched now (hash_api_key key) context
        → Grounds config can_be_exempt now req context

  abbrev pub Justified : AuthConfig → Bool → ℕ → Request → Outcome → Type 0
  Justified config can_be_exempt now req (proceed context) =
      Grounds config can_be_exempt now req context
  Justified config can_be_exempt now req unauthorized = Unit

  -- The hash that is asked for is that of the request's key.
  abbrev pub IsOwnHash : Request → Text → Type 0
  IsOwnHash req key_hash = (key : Text) × (raw_key req ≡ some key) × (key_hash ≡ hash_api_key key)

  -- What a request owes after the lookup in the cache.
  abbrev pub Owes : AuthConfig → Bool → ℕ → Request → Progress → Type 0
  Owes config can_be_exempt now req (answered outcome) =
      Justified config can_be_exempt now req outcome
  Owes config can_be_exempt now req (asks key_hash) = IsOwnHash req key_hash

  -- Time may pass over a backed cache.
  pub later-IsBacked :
      (last now : ℕ) (cache : Cache)
      → last ≤ now
      → All (IsBacked last) cache
      → All (IsBacked now) cache
  later-IsBacked last now cache h =
      All-imp (IsBacked last) (IsBacked now)
        (λ e b. record { vouched = b.vouched; past = omega (arith, b.past, h) }) cache

  if-Owes :
      (config : AuthConfig) (can_be_exempt : Bool) (now : ℕ) (req : Request) (b : Bool)
      (x y : Progress)
      → (b ≡ true → Owes config can_be_exempt now req x)
      → (b ≡ false → Owes config can_be_exempt now req y)
      → Owes config can_be_exempt now req (if b then x else y)
  if-Owes config can_be_exempt now req true x y f g = f refl
  if-Owes config can_be_exempt now req false x y f g = g refl

  scoped-Owes :
      (config : AuthConfig) (can_be_exempt : Bool) (now : ℕ) (req : Request) (cache : Cache)
      (key : Text)
      → raw_key req ≡ some key
      → All (IsBacked now) cache
      → Owes config can_be_exempt now req (scoped ct_eq hash_api_key now cache (hash_api_key key))
  unfolding scoped cached_context
  scoped-Owes config can_be_exempt now req cache key e h =
      elim (Option-cases (BTreeMap.get cache (hash_api_key key))) [
        | inl p ↦ rw (p, scoped, cached_context) (key, e, refl)
        | inr (entry, p) ↦
            let b = get-All (IsBacked now) cache (hash_api_key key) entry h p in
            elim (Bool-cases (is_fresh now entry && entry.active)) [
              | inl f ↦
                  rw (p, f, scoped, cached_context)
                    (cached_key key entry.cached_at e b.past (ground (arith, f)) b.vouched)
              | inr f ↦ rw (p, f, scoped, cached_context) (key, e, refl)
            ]
      ]

  with_key-Owes :
      (config : AuthConfig) (can_be_exempt : Bool) (now : ℕ) (req : Request) (cache : Cache)
      (key : Text)
      → raw_key req ≡ some key
      → All (IsBacked now) cache
      → Owes config can_be_exempt now req (with_key ct_eq hash_api_key config now cache key)
  unfolding with_key
  with_key-Owes config can_be_exempt now req cache key e h =
      if-Owes config can_be_exempt now req
        (constant_time_key_match ct_eq hash_api_key config.valid_keys key)
        (answered (proceed admin_bootstrap))
        (if config.state_store
          then scoped ct_eq hash_api_key now cache (hash_api_key key)
          else answered unauthorized)
        (λ p. bootstrap_key key e p refl)
        (λ p.
          if-Owes config can_be_exempt now req config.state_store
            (scoped ct_eq hash_api_key now cache (hash_api_key key)) (answered unauthorized)
            (λ q. scoped-Owes config can_be_exempt now req cache key e h) (λ q. tt))

  guarded-Owes :
      (config : AuthConfig) (can_be_exempt : Bool) (now : ℕ) (req : Request) (cache : Cache)
      → All (IsBacked now) cache
      → Owes config can_be_exempt now req (guarded ct_eq hash_api_key config now cache req)
  unfolding guarded
  guarded-Owes config can_be_exempt now req cache h = elim (Option-cases (raw_key req)) [
    | inl p ↦ rw (p, guarded) tt
    | inr (key, p) ↦ rw (p, guarded) (with_key-Owes config can_be_exempt now req cache key p h)
  ]

  pub call-Owes :
      (config : AuthConfig) (now : ℕ) (req : Request) (cache : Cache)
      → All (IsBacked now) cache
      → Owes config true now req (call ct_eq hash_api_key config now cache req)
  unfolding call
  call-Owes config now req cache h =
      let rest = guarded ct_eq hash_api_key config now cache req in
      if-Owes config true now req (not config.enabled) (answered (proceed admin_bootstrap))
        (if is_exempt req.path then answered (proceed anonymous) else rest)
        (λ p. switched_off (not-false config.enabled p) refl)
        (λ p.
          if-Owes config true now req (is_exempt req.path) (answered (proceed anonymous)) rest
            (λ q. exempt refl q refl) (λ q. guarded-Owes config true now req cache h))

  pub grpc-Owes :
      (config : AuthConfig) (now : ℕ) (req : Request) (cache : Cache)
      → All (IsBacked now) cache
      → Owes config false now req (validate_grpc_auth ct_eq hash_api_key config now cache req)
  unfolding validate_grpc_auth
  grpc-Owes config now req cache h =
      if-Owes config false now req (not config.enabled) (answered (proceed admin_bootstrap))
        (guarded ct_eq hash_api_key config now cache req)
        (λ p. switched_off (not-false config.enabled p) refl)
        (λ p. guarded-Owes config false now req cache h)

  -- The rest of a request, when the readings of the clock follow each other and that of the cache.
  pub look_up-Owes :
      (config : AuthConfig) (can_be_exempt : Bool) (req : Request) (key_hash : Text) (read : ℕ)
      (i : Readings) (cache : Cache)
      → IsOwnHash req key_hash
      → read ≤ i.judged
      → i.judged ≤ i.cached
      → i.cached ≤ i.used
      → All (IsBacked i.cached) cache
      → Justified config can_be_exempt i.used req
          (look_up i (store_at read key_hash) cache key_hash).outcome
        × All (IsBacked i.cached) (look_up i (store_at read key_hash) cache key_hash).cache
  unfolding look_up
  look_up-Owes config can_be_exempt req key_hash read i cache own r j u h =
      elim (Reply-cases (store_at read key_hash)) [
        | inr other ↦ elim other [
          | inl p ↦ rw (p, look_up) (tt, h)
          | inr p ↦ rw (p, look_up) (tt, h)
        ]
        | inl (k, p) ↦ elim (Bool-cases (is_active i.judged k)) [
          | inr q ↦ rw (p, q, look_up) (tt, h)
          | inl q ↦
              let vouch : (latest : ℕ)
                  → i.judged ≤ latest
                  → Vouched latest key_hash (context_of k) =
                λ latest l. record {
                  read = read;
                  judged = i.judged;
                  key = k;
                  held = p;
                  was_active = q;
                  gives = refl;
                  read_first = r;
                  in_time = l;
                } in
              rw (p, q, look_up)
                (
                  stored_key own.0 own.1 (
                      subst (λ x. Vouched i.used x (context_of k)) own.2
                        (vouch i.used (omega arith))),
                  insert-All (IsBacked i.cached) cache key_hash
                      (record { context = context_of k; active = true; cached_at = i.cached }) h
                      (record { vouched = vouch i.cached j; past = omega arith }),
                )
        ]
      ]
