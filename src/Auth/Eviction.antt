-- ===== src/Auth/Eviction.antt =====
-- `evict_stale_cache_entries` of auth.rs: stale entries go, and then the oldest ones above the limit.
use mnemo.Base.{
  ℕ, ◌-◌, Bool, true, false, not, if◌then◌else◌, ltb, List, [], ◌∷◌, map, take, keep, length, All,
}
use mnemo.Base.Order.{Text, text_ord, eqb}
use mnemo.Auth.{CachedKey, Cache, is_fresh, key_cache_max_entries}

-- `sort_by` on the time, by stable insertion.
unfoldable pub insert_by_age : Text × ℕ → List (Text × ℕ) → List (Text × ℕ)
insert_by_age x [] = x ∷ []
insert_by_age x (y ∷ ys) = if ltb y.1 x.1 then y ∷ insert_by_age x ys else x ∷ y ∷ ys

unfoldable pub sort_by_age : List (Text × ℕ) → List (Text × ℕ)
unfolding insert_by_age
sort_by_age [] = []
sort_by_age (x ∷ xs) = insert_by_age x (sort_by_age xs)

-- `cache.remove(&key)`, for a map in which a key stands once.
unfoldable pub remove : Text → Cache → Cache
remove key cache = keep (λ e. not (eqb e.0 key)) cache

unfoldable pub remove_all : List (Text × ℕ) → Cache → Cache
unfolding remove
remove_all [] cache = cache
remove_all (x ∷ xs) cache = remove_all xs (remove x.0 cache)

unfoldable pub evict_stale_cache_entries : ℕ → Cache → Cache
unfolding sort_by_age remove_all
evict_stale_cache_entries now cache =
    let fresh = keep (λ e. is_fresh now e.1) cache in
    if ltb key_cache_max_entries (length fresh)
    then remove_all
        (take (length fresh - key_cache_max_entries)
          (sort_by_age (map (λ e. (e.0, e.1.cached_at)) fresh)))
        fresh
    else fresh

keep_placed :
    (P : Text × CachedKey → Type 0) (x : Text × CachedKey) (rest : Cache) (b : Bool)
    → P x
    → All P rest
    → All P (elim b [ true ↦ x ∷ rest | false ↦ rest ])
keep_placed P x rest true q h = (q, h)
keep_placed P x rest false q h = h

pub keep-All :
    (P : Text × CachedKey → Type 0) (p : Text × CachedKey → Bool) (xs : Cache)
    → All P xs
    → All P (keep p xs)
keep-All P p [] h = tt
keep-All P p (x ∷ xs) (q, h) = keep_placed P x (keep p xs) (p x) q (keep-All P p xs h)

pub remove_all-All :
    (P : Text × CachedKey → Type 0) (xs : List (Text × ℕ)) (cache : Cache)
    → All P cache
    → All P (remove_all xs cache)
unfolding remove_all remove
remove_all-All P [] cache h = h
remove_all-All P (x ∷ xs) cache h =
    remove_all-All P xs (remove x.0 cache) (keep-All P (λ e. not (eqb e.0 x.0)) cache h)

-- What holds of every entry still does after the eviction.
pub evict-All :
    (P : Text × CachedKey → Type 0) (now : ℕ) (cache : Cache)
    → All P cache
    → All P (evict_stale_cache_entries now cache)
unfolding evict_stale_cache_entries
evict-All P now cache h =
    let fresh = keep (λ e. is_fresh now e.1) cache in
    let oldest =
      take (length fresh - key_cache_max_entries)
        (sort_by_age (map (λ e. (e.0, e.1.cached_at)) fresh)) in
    chosen (ltb key_cache_max_entries (length fresh)) fresh oldest
      (keep-All P (λ e. is_fresh now e.1) cache h)
  where
    chosen :
        (b : Bool) (fresh : Cache) (oldest : List (Text × ℕ))
        → All P fresh
        → All P (if b then remove_all oldest fresh else fresh)
    chosen true fresh oldest k = remove_all-All P oldest fresh k
    chosen false fresh oldest k = k
