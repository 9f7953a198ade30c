-- ===== src/Cache.antt =====
-- cache.py: the LRU cache with an expiry time for each entry. `store` is the OrderedDict, least
-- recently used entry first; a time is a reading of `time.monotonic()`, in ticks. Each method runs
-- under the cache's lock, so a sequence of calls is a sequence of these functions.
pub mod Reads
pub mod Bounds
pub mod Trace
use indic_rag.Base.{
  ℕ, ◌+◌, Bool, Option, none, some, List, [], ◌∷◌, ◌++◌, ltb, leb, if◌then◌else◌, length, Dict, Eq,
  lookup, insert, remove,
}

pub record TtlCache {ℓ κ} (K : Type ℓ) (V : Type κ) : Type (ℓ ⊔ κ) where
  pub max_size : ℕ
  pub ttl : ℕ
  pub store : Dict K (V × ℕ)
  pub hits : ℕ
  pub misses : ℕ

module _ {ℓ κ} {K : Type ℓ} {V : Type κ} where
  unfoldable pub init : ℕ → ℕ → TtlCache K V
  init max_size ttl = record { max_size = max_size; ttl = ttl; store = []; hits = 0; misses = 0 }

  -- `popitem(last=False)`; `none` is the KeyError of an empty dict
  unfoldable pub pop_first : Dict K (V × ℕ) → Option (Dict K (V × ℕ))
  pop_first [] = none
  pop_first (entry ∷ rest) = some rest

module _ {ℓ κ} {K : Type ℓ} {V : Type κ} ⦃e : Eq K⦄ where
  -- `move_to_end(key)` of a key that holds `entry`
  unfoldable pub move_to_end : K → V × ℕ → Dict K (V × ℕ) → Dict K (V × ℕ)
  move_to_end key entry store = remove key store ++ (key, entry) ∷ []

  abbrev pub expired : TtlCache K V → ℕ → ℕ → Bool
  expired c ts now = ltb (ts + c.ttl) now

  unfoldable pub get : K → ℕ → TtlCache K V → TtlCache K V × Option V
  get key now c = elim (lookup key c.store) [
    | none ↦ (record c { misses = c.misses + 1 }, none)
    | some (value, ts) ↦
        if expired c ts now
        then (record c { store = remove key c.store; misses = c.misses + 1 }, none)
        else (
          record c { store = move_to_end key (value, ts) c.store; hits = c.hits + 1 },
          some value,
        )
  ]

  -- the entries that stay when a new key comes in
  unfoldable pub make_room : TtlCache K V → Option (Dict K (V × ℕ))
  make_room c = if leb c.max_size (length c.store) then pop_first c.store else some c.store

  -- `none` is the KeyError that `popitem` raises on an empty cache of size 0
  unfoldable pub put : K → V → ℕ → TtlCache K V → Option (TtlCache K V)
  put key value now c = elim (lookup key c.store) [
    | some entry ↦
        some (record c { store = insert key (value, now) (move_to_end key entry c.store) })
    | none ↦ elim (make_room c) [
      | none ↦ none
      | some rest ↦ some (record c { store = insert key (value, now) rest })
    ]
  ]

  -- `invalidate(key)`, and `invalidate()` for `none`
  unfoldable pub invalidate : Option K → TtlCache K V → TtlCache K V
  invalidate none c = record c { store = [] }
  invalidate (some key) c = record c { store = remove key c.store }
