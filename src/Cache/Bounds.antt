-- ===== src/Cache/Bounds.antt =====
-- cache.py: the size of the cache and its keys, under each method.
use indic_rag.Base.{
  ℕ, ◌+◌, ◌≤◌, ◌<◌, ◌≡◌, true, Option, none, some, [], ◌∷◌, arith, length, is_some, Dict, Eq,
  lookup, insert, remove, Unique, keys, mem-keys, mem-keys-remove, remove-Unique, insert-Unique,
  append-Unique, length-remove, length-remove-le, length-append, Option-cases, inl, inr, ==_refl,
  leb, if◌then◌else◌, Bool-cases,
}
use indic_rag.Cache.Reads.{lookup-move_to_end}
use indic_rag.Cache.{TtlCache, init, pop_first, move_to_end, get, make_room, put, invalidate}

pub record IsValid {ℓ κ} {K : Type ℓ} {V : Type κ} ⦃e : Eq K⦄ (c : TtlCache K V) : Type 0 where
  pub positive : 0 < c.max_size
  pub bounded : length c.store ≤ c.max_size
  pub distinct : Unique (keys c.store)

module _ {ℓ κ} {K : Type ℓ} {V : Type κ} ⦃e : Eq K⦄ where
  length-insert : (k : K) (x : V × ℕ) (d : Dict K (V × ℕ)) → length (insert k x d) ≤ length d + 1
  unfolding insert
  length-insert k x [] = omega arith
  length-insert k x ((i, w) ∷ d) = ground (arith, length-insert k x d)

  -- a write to a present key adds no entry
  length-insert_present :
      (k : K) (x : V × ℕ) (d : Dict K (V × ℕ))
      → is_some (lookup k d) ≡ true
      → length (insert k x d) ≡ length d
  unfolding insert lookup
  length-insert_present k x [] h = cc
  length-insert_present k x ((i, w) ∷ d) h = ground (arith, length-insert_present k x d)

  move_to_end-Unique :
      (k : K) (x : V × ℕ) (d : Dict K (V × ℕ)) → Unique (keys d) → Unique (keys (move_to_end k x d))
  unfolding move_to_end
  move_to_end-Unique k x d u =
      append-Unique k x (remove k d) (ground (arith, mem-keys-remove k k d, ==_refl k))
        (remove-Unique k d u)

  length-move_to_end :
      (k : K) (x : V × ℕ) (d : Dict K (V × ℕ))
      → is_some (lookup k d) ≡ true
      → length (move_to_end k x d) ≤ length d
  unfolding move_to_end
  length-move_to_end k x d h =
      ground (arith, mem-keys k d, length-remove k d, length-append (remove k d) ((k, x) ∷ []))

  pub init-IsValid : (n ttl : ℕ) → 0 < n → IsValid (init {K = K} {V = V} n ttl)
  unfolding init
  init-IsValid n ttl h = record { positive = h; bounded = omega arith; distinct = tt }

  -- A read keeps the invariant.
  pub get-IsValid : (k : K) (now : ℕ) (c : TtlCache K V) → IsValid c → IsValid (get k now c).0
  unfolding get
  get-IsValid k now c h = elim (Option-cases (lookup k c.store)) [
    | inl miss ↦
        rw (miss, get)
          (record { positive = h.positive; bounded = h.bounded; distinct = h.distinct })
    | inr ((v, ts), hit) ↦
        rw (hit, get)
          (record {
            positive = ground arith;
            bounded =
                ground (arith, length-remove-le k c.store, length-move_to_end k (v, ts) c.store);
            distinct = ground (
              arith,
              remove-Unique k c.store h.distinct,
              move_to_end-Unique k (v, ts) c.store h.distinct,
            );
          })
  ]

  make_room_total :
      (c : TtlCache K V)
      → IsValid c
      → (rest : Dict K (V × ℕ)) × (make_room c ≡ some rest)
        × (length rest + 1 ≤ c.max_size)
        × Unique (keys rest)
  unfolding make_room pop_first
  make_room_total c h = shrink c.store h.bounded h.distinct
    where
      shrink :
          (d : Dict K (V × ℕ))
          → length d ≤ c.max_size
          → Unique (keys d)
          → (rest : Dict K (V × ℕ)) × ((if leb c.max_size (length d) then pop_first d else some d)
              ≡ some rest)
            × (length rest + 1 ≤ c.max_size)
            × Unique (keys rest)
      shrink [] b u = ([], ground arith, ground arith, tt)
      shrink (x ∷ d) b u = elim (Bool-cases (leb c.max_size (length (x ∷ d)))) [
        | inl full ↦ (d, ground arith, ground arith, u.1)
        | inr room ↦ (x ∷ d, ground arith, ground arith, u)
      ]

  -- From a valid cache a write never raises, and it leaves a valid cache.
  pub put_total :
      (k : K) (v : V) (now : ℕ) (c : TtlCache K V)
      → IsValid c
      → (c' : TtlCache K V) × (put k v now c ≡ some c') × IsValid c'
  unfolding put
  put_total k v now c h = elim (Option-cases (lookup k c.store)) [
    | inr (x, old) ↦ (
      record c { store = insert k (v, now) (move_to_end k x c.store) },
      ground arith,
      record {
        positive = h.positive;
        bounded = ground (
          arith,
          length-move_to_end k x c.store,
          length-insert_present k (v, now) (move_to_end k x c.store),
          lookup-move_to_end k k x c.store,
          ==_refl k,
        );
        distinct =
            insert-Unique k (v, now) (move_to_end k x c.store)
              (move_to_end-Unique k x c.store h.distinct);
      },
    )
    | inl new ↦
        let (rest, room, small, u) = make_room_total c h in
        (
          record c { store = insert k (v, now) rest },
          ground arith,
          record {
            positive = h.positive;
            bounded = omega (arith, length-insert k (v, now) rest);
            distinct = insert-Unique k (v, now) rest u;
          },
        )
  ]

  pub invalidate-IsValid : (o : Option K) (c : TtlCache K V) → IsValid c → IsValid (invalidate o c)
  unfolding invalidate
  invalidate-IsValid none c h = record {
    positive = h.positive;
    bounded = omega arith;
    distinct = tt;
  }
  invalidate-IsValid (some k) c h = record {
    positive = h.positive;
    bounded = omega (arith, length-remove-le k c.store, h.bounded);
    distinct = remove-Unique k c.store h.distinct;
  }
