-- ===== src/Cache/Reads.antt =====
-- cache.py: what each method leaves for a later read.
use indic_rag.Base.{
  ℕ, ◌≡◌, Bool, false, ◌&&◌, not, Option, none, some, [], ◌∷◌, arith, leb, if◌then◌else◌, length,
  is_some, Dict, Eq, ◌==◌, lookup, remove, lookup-insert, lookup-remove, lookup-append, Unique,
  keys, mem-keys, Option-cases, inl, inr,
}
use indic_rag.Cache.{TtlCache, pop_first, move_to_end, expired, get, make_room, put, invalidate}

module _ {ℓ κ} {K : Type ℓ} {V : Type κ} ⦃e : Eq K⦄ where
  pub lookup-move_to_end :
      (k j : K) (x : V × ℕ) (d : Dict K (V × ℕ))
      → lookup j (move_to_end k x d) ≡ (if k == j then some x else lookup j d)
  unfolding move_to_end lookup
  lookup-move_to_end k j x d =
      ground (arith, lookup-append j (remove k d) ((k, x) ∷ []), lookup-remove k j d)

  -- What a read finds: the entry, unless its time is over.
  abbrev pub live : TtlCache K V → ℕ → Option (V × ℕ) → Option V
  live c now none = none
  live c now (some (value, ts)) = if expired c ts now then none else some value

  -- A read returns the stored value exactly while it is not older than the time to live.
  pub result-get :
      (k : K) (now : ℕ) (c : TtlCache K V) → (get k now c).1 ≡ live c now (lookup k c.store)
  unfolding get
  result-get k now c = ground arith

  -- The only entry that a read removes is its own, expired one.
  pub lookup-get :
      (k j : K) (now : ℕ) (c : TtlCache K V)
      → lookup j (get k now c).0.store ≡ (
          if k == j && not (is_some (live c now (lookup k c.store)))
          then none
          else lookup j c.store)
  unfolding get
  lookup-get k j now c = elim (Option-cases (lookup k c.store)) [
    | inl miss ↦ ground (arith, e.beq_iff k j)
    | inr ((value, ts), hit) ↦ ground (
      arith,
      e.beq_iff k j,
      lookup-remove k j c.store,
      lookup-move_to_end k j (value, ts) c.store,
    )
  ]

  abbrev first_is : K → Dict K (V × ℕ) → Bool
  first_is j [] = false
  first_is j ((i, x) ∷ rest) = i == j

  -- `j` is the least recently used key of a full cache, to which `k` is new.
  abbrev pub is_victim : TtlCache K V → K → K → Bool
  is_victim c k j =
      not (is_some (lookup k c.store)) && leb c.max_size (length c.store) && first_is j c.store

  lookup-pop_first :
      (j : K) (d : Dict K (V × ℕ)) {rest : Dict K (V × ℕ)}
      → Unique (keys d)
      → pop_first d ≡ some rest
      → lookup j rest ≡ (if first_is j d then none else lookup j d)
  unfolding pop_first lookup
  lookup-pop_first j [] u h = cc
  lookup-pop_first j ((i, x) ∷ rest) u h = ground (arith, mem-keys i rest, e.beq_iff i j)

  lookup-make_room :
      (k j : K) (c : TtlCache K V) {rest : Dict K (V × ℕ)}
      → Unique (keys c.store)
      → lookup k c.store ≡ none
      → make_room c ≡ some rest
      → lookup j rest ≡ (if is_victim c k j then none else lookup j c.store)
  unfolding make_room
  lookup-make_room k j c {rest} u new h = ground (arith, lookup-pop_first j c.store {rest = rest} u)

  -- After a write the key reads as written, and every other key as before, but for the least
  -- recently used one if the cache was full and the key is new.
  pub lookup-put :
      (k j : K) (v : V) (now : ℕ) (c : TtlCache K V) {c' : TtlCache K V}
      → Unique (keys c.store)
      → put k v now c ≡ some c'
      → lookup j c'.store
        ≡ (if k == j then some (v, now) else if is_victim c k j then none else lookup j c.store)
  unfolding put
  lookup-put k j v now c {c'} u h = elim (Option-cases (lookup k c.store)) [
    | inr (x, old) ↦ ground (
      arith,
      lookup-insert k j (v, now) (move_to_end k x c.store),
      lookup-move_to_end k j x c.store,
    )
    | inl new ↦ elim (Option-cases (make_room c)) [
      | inl no_room ↦ absurd (ground arith)
      | inr (rest, room) ↦
          ground (
            arith,
            lookup-insert k j (v, now) rest,
            lookup-make_room k j c {rest = rest} u new room,
          )
    ]
  ]

  pub lookup-invalidate :
      (k j : K) (c : TtlCache K V)
      → lookup j (invalidate (some k) c).store ≡ (if k == j then none else lookup j c.store)
  unfolding invalidate
  lookup-invalidate k j c = lookup-remove k j c.store
