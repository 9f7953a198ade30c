-- ===== src/Base/Dicts.antt =====
-- Python's `dict`: an association list in insertion order. A write to a present key keeps its place.
use Prim.Native.Nat.{◌+◌, ◌≤◌}
use mathlib.Core.Path.{◌≡◌, refl}
use mathlib.Core.Bool.{true, false, ◌||◌}
use mathlib.Core.List.{List, [], ◌∷◌, ◌++◌}
use mathlib.Core.Option.{Option, none, some}
use native.Mathlib.Omega.{arith}
use indic_rag.Base.Tests.{if◌then◌else◌, is_some}
use indic_rag.Base.Equality.{Eq, ◌==◌}
use indic_rag.Base.Lists.{length, mem, Unique, mem-append}

abbrev pub Dict {ℓ κ} : Type ℓ → Type κ → Type (ℓ ⊔ κ)
Dict K V = List (K × V)

module _ {ℓ κ} {K : Type ℓ} {V : Type κ} where
  -- the keys, in order
  abbrev pub keys : Dict K V → List K
  keys [] = []
  keys ((k, v) ∷ d) = k ∷ keys d

  pub length-keys : (d : Dict K V) → length (keys d) ≡ length d
  length-keys [] = refl
  length-keys (e ∷ d) = omega (arith, length-keys d)

  pub keys-append : (d f : Dict K V) → keys (d ++ f) ≡ keys d ++ keys f
  keys-append [] f = refl
  keys-append ((k, v) ∷ d) f = λ i. k ∷ keys-append d f i

module _ {ℓ κ} {K : Type ℓ} {V : Type κ} ⦃e : Eq K⦄ where
  -- d.get(k)
  unfoldable pub lookup : K → Dict K V → Option V
  lookup k [] = none
  lookup k ((j, v) ∷ d) = if j == k then some v else lookup k d

  -- d[k] = v
  unfoldable pub insert : K → V → Dict K V → Dict K V
  insert k v [] = (k, v) ∷ []
  insert k v ((j, w) ∷ d) = if j == k then (j, v) ∷ d else (j, w) ∷ insert k v d

  -- del d[k], d.pop(k, None)
  unfoldable pub remove : K → Dict K V → Dict K V
  remove k [] = []
  remove k ((j, w) ∷ d) = if j == k then remove k d else (j, w) ∷ remove k d

  pub lookup-insert :
      (k j : K) (v : V) (d : Dict K V)
      → lookup j (insert k v d) ≡ (if k == j then some v else lookup j d)
  unfolding lookup insert
  lookup-insert k j v [] = refl
  lookup-insert k j v ((i, w) ∷ d) =
      ground (arith, e.beq_iff k j, e.beq_iff i k, e.beq_iff i j, lookup-insert k j v d)

  pub lookup-remove :
      (k j : K) (d : Dict K V) → lookup j (remove k d) ≡ (if k == j then none else lookup j d)
  unfolding lookup remove
  lookup-remove k j [] = ground arith
  lookup-remove k j ((i, w) ∷ d) =
      ground (arith, e.beq_iff k j, e.beq_iff i k, e.beq_iff i j, lookup-remove k j d)

  pub lookup-insert_same : (k : K) (v : V) (d : Dict K V) → lookup k (insert k v d) ≡ some v
  lookup-insert_same k v d = ground (arith, e.beq_iff k k, lookup-insert k k v d)

  pub lookup-remove_same : (k : K) (d : Dict K V) → lookup k (remove k d) ≡ none
  lookup-remove_same k d = ground (arith, e.beq_iff k k, lookup-remove k k d)

  -- a dict in which every entry is found, by its keys
  abbrev pub Entries : Dict K V → Dict K V → Type (ℓ ⊔ κ)
  Entries f [] = Unit
  Entries f ((k, v) ∷ d) = (lookup k f ≡ some v) × Entries f d

  Entries-cons :
      (k : K) (v : V) (f d : Dict K V)
      → mem k (keys d) ≡ false
      → Entries f d
      → Entries ((k, v) ∷ f) d
  unfolding lookup
  Entries-cons k v f [] h a = tt
  Entries-cons k v f ((j, w) ∷ d) h a =
      (ground (arith, a.0, e.beq_iff k j, e.beq_iff j k), Entries-cons k v f d (ground arith) a.1)

  pub Unique-Entries : (d : Dict K V) → Unique (keys d) → Entries d d
  unfolding lookup
  Unique-Entries [] u = tt
  Unique-Entries ((k, v) ∷ d) u =
      (ground (arith, e.beq_iff k k), Entries-cons k v d d u.0 (Unique-Entries d u.1))

  pub lookup-append :
      (j : K) (d f : Dict K V)
      → lookup j (d ++ f) ≡ (if is_some (lookup j d) then lookup j d else lookup j f)
  unfolding lookup
  lookup-append j [] f = refl
  lookup-append j ((i, w) ∷ d) f = ground (arith, lookup-append j d f)

  -- A key is present exactly when a lookup finds a value.
  pub mem-keys : (k : K) (d : Dict K V) → mem k (keys d) ≡ is_some (lookup k d)
  unfolding lookup
  mem-keys k [] = refl
  mem-keys k ((j, w) ∷ d) = ground (arith, mem-keys k d)

  pub mem-keys-remove :
      (k j : K) (d : Dict K V)
      → mem j (keys (remove k d)) ≡ (if k == j then false else mem j (keys d))
  unfolding remove
  mem-keys-remove k j [] = ground arith
  mem-keys-remove k j ((i, w) ∷ d) =
      ground (arith, e.beq_iff k j, e.beq_iff i k, e.beq_iff i j, mem-keys-remove k j d)

  pub mem-keys-insert :
      (k j : K) (v : V) (d : Dict K V) → mem j (keys (insert k v d)) ≡ (k == j || mem j (keys d))
  unfolding insert
  mem-keys-insert k j v [] = refl
  mem-keys-insert k j v ((i, w) ∷ d) =
      ground (arith, e.beq_iff k j, e.beq_iff i k, e.beq_iff i j, mem-keys-insert k j v d)

  pub remove-Unique : (k : K) (d : Dict K V) → Unique (keys d) → Unique (keys (remove k d))
  unfolding remove
  remove-Unique k [] u = tt
  remove-Unique k ((i, w) ∷ d) u = ground (arith, remove-Unique k d u.1, mem-keys-remove k i d)

  pub insert-Unique :
      (k : K) (v : V) (d : Dict K V) → Unique (keys d) → Unique (keys (insert k v d))
  unfolding insert
  insert-Unique k v [] u = (refl, tt)
  insert-Unique k v ((i, w) ∷ d) u =
      ground (arith, insert-Unique k v d u.1, mem-keys-insert k i v d, e.beq_iff i k, e.beq_iff k i)

  pub append-Unique :
      (k : K) (v : V) (d : Dict K V)
      → mem k (keys d) ≡ false
      → Unique (keys d)
      → Unique (keys (d ++ (k, v) ∷ []))
  append-Unique k v [] h u = (refl, tt)
  append-Unique k v ((i, w) ∷ d) h u = ground (
    arith,
    append-Unique k v d,
    keys-append d ((k, v) ∷ []),
    mem-append i (keys d) (k ∷ []),
    e.beq_iff i k,
    e.beq_iff k i,
  )

  pub length-remove-le : (k : K) (d : Dict K V) → length (remove k d) ≤ length d
  unfolding remove
  length-remove-le k [] = omega arith
  length-remove-le k ((i, w) ∷ d) = ground (arith, length-remove-le k d)

  pub length-remove :
      (k : K) (d : Dict K V) → mem k (keys d) ≡ true → length (remove k d) + 1 ≤ length d
  unfolding remove
  length-remove k [] h = cc
  length-remove k ((i, w) ∷ d) h = ground (arith, length-remove k d, length-remove-le k d)

  pub remove_absent : (k : K) (d : Dict K V) → mem k (keys d) ≡ false → remove k d ≡ d
  unfolding remove
  remove_absent k [] h = refl
  remove_absent k ((i, w) ∷ d) h = ground (arith, remove_absent k d)
