-- ===== src/Cache.antt =====
-- app/cache.py: the in-memory cache with a time to live. `get`, `set` and `delete` hold the lock
-- throughout, so each is one step; `get_or_set` is two of them, with other calls between. Instants
-- are readings of the monotonic clock, in the unit of `ttl`.
pub mod Laws
use tetra_host.Prelude.{ℕ, String, Bool, ◌+◌, Option, none, some, leb, if◌then◌else◌}
use tetra_host.Prelude.Dict
use tetra_host.Prelude.Dict.{Dict}

module _ {ℓ} (V : Type ℓ) where
  pub record CacheEntry : Type ℓ where
    pub value : V
    pub expires_at : ℕ

  abbrev pub TtlCache : Type ℓ
  TtlCache = Dict CacheEntry

module _ {ℓ} {V : Type ℓ} where
  get_entry : String → ℕ → TtlCache V → Option (CacheEntry V) → Option V × TtlCache V
  get_entry key now c none = (none, c)
  get_entry key now c (some entry) =
      if leb entry.expires_at now then (none, Dict.pop key c) else (some entry.value, c)

  unfoldable pub get : String → ℕ → TtlCache V → Option V × TtlCache V
  unfolding get_entry
  get key now c = get_entry key now c (Dict.get key c)

  unfoldable pub set : String → V → ℕ → ℕ → TtlCache V → TtlCache V
  set key value ttl now c = Dict.put key (record { value = value; expires_at = now + ttl }) c

  unfoldable pub delete : String → TtlCache V → TtlCache V
  delete key c = Dict.pop key c

  -- `made` is what the factory gives; the calls of other tasks while it runs, which holds no lock,
  -- are `meanwhile`, and `then_now` is the later instant at which its result is stored. A cached
  -- value that is `None` counts as a miss.
  or_make :
      (V → Bool)
      → String
      → ℕ
      → V
      → ℕ
      → (TtlCache V → TtlCache V)
      → Option V × TtlCache V
      → V × TtlCache V
  or_make is_none key ttl made then_now meanwhile (some v, c) =
      if is_none v then (made, set key made ttl then_now (meanwhile c)) else (v, c)
  or_make is_none key ttl made then_now meanwhile (none, c) =
      (made, set key made ttl then_now (meanwhile c))

  unfoldable pub get_or_set :
      (V → Bool) → String → ℕ → V → ℕ → ℕ → (TtlCache V → TtlCache V) → TtlCache V → V × TtlCache V
  unfolding or_make
  get_or_set is_none key ttl made now then_now meanwhile c =
      or_make is_none key ttl made then_now meanwhile (get key now c)

  -- What a reader of `key` is given at `now`.
  abbrev pub view : String → ℕ → TtlCache V → Option V
  view key now c = (get key now c).0
