-- ===== src/Cache/Trace.antt =====
-- cache.py: runs of the cache beside an ideal map that forgets nothing.
use indic_rag.Cache.{TtlCache, init, get, put, invalidate}
use indic_rag.Cache.Reads.{live, result-get, lookup-get, lookup-put}
use indic_rag.Cache.Bounds.{IsValid, init-IsValid, get-IsValid, put_total, invalidate-IsValid}
use indic_rag.Base.{
  Eq, List, Option, Unique, [], ap, arith, if◌then◌else◌, keys, lookup, lookup-remove, none, refl,
  some, sym, ℕ, ◌+◌, ◌<◌, ◌==◌, ◌∙◌, ◌∷◌, ◌≡◌, ◌≤◌,
}

-- A call, with the reading of the clock that it takes.
pub data Call {ℓ κ} (K : Type ℓ) (V : Type κ) : Type (ℓ ⊔ κ) where
  read : K → ℕ → Call K V
  write : K → V → ℕ → Call K V
  forget : Option K → Call K V

module _ {ℓ κ} {K : Type ℓ} {V : Type κ} ⦃e : Eq K⦄ where
  unfoldable pub step : Call K V → TtlCache K V → Option (TtlCache K V)
  step (read k now) c = some (get k now c).0
  step (write k v now) c = put k v now c
  step (forget o) c = some (invalidate o c)

  unfoldable pub run : List (Call K V) → TtlCache K V → Option (TtlCache K V)
  run [] c = some c
  run (call ∷ calls) c = elim (step call c) [ none ↦ none | some c' ↦ run calls c' ]

  -- The ideal map: the last write of each key since it was last invalidated, with its time.
  unfoldable pub note : K → Call K V → Option (V × ℕ) → Option (V × ℕ)
  note k (read j now) last = last
  note k (write j v now) last = if j == k then some (v, now) else last
  note k (forget none) last = none
  note k (forget (some j)) last = if j == k then none else last

  unfoldable pub ideal : K → List (Call K V) → Option (V × ℕ) → Option (V × ℕ)
  ideal k [] last = last
  ideal k (call ∷ calls) last = ideal k calls (note k call last)

  -- What the cache holds is what the ideal map holds.
  abbrev pub Agrees : TtlCache K V → (K → Option (V × ℕ)) → Type (ℓ ⊔ κ)
  Agrees c last = (k : K) (x : V × ℕ) → lookup k c.store ≡ some x → last k ≡ some x

  pub get-settings :
      (k : K) (now : ℕ) (c : TtlCache K V)
      → ((get k now c).0.ttl ≡ c.ttl) × ((get k now c).0.max_size ≡ c.max_size)
  unfolding get
  get-settings k now c = ground arith

  pub put-settings :
      (k : K) (v : V) (now : ℕ) (c : TtlCache K V) {c' : TtlCache K V}
      → put k v now c ≡ some c'
      → (c'.ttl ≡ c.ttl) × (c'.max_size ≡ c.max_size)
  unfolding put
  put-settings k v now c h = ground arith

  read-Agrees :
      (k : K) (now : ℕ) (c : TtlCache K V) (last : K → Option (V × ℕ))
      → Agrees c last
      → Agrees (get k now c).0 last
  read-Agrees k now c last a j x h = ground (arith, lookup-get k j now c, a j x)

  write-Agrees :
      (k : K) (v : V) (now : ℕ) (c c' : TtlCache K V) (last : K → Option (V × ℕ))
      → Unique (keys c.store)
      → put k v now c ≡ some c'
      → Agrees c last
      → Agrees c' (λ j. note j (write k v now) (last j))
  unfolding note
  write-Agrees k v now c c' last u done a j x h =
      ground (arith, lookup-put k j v now c u done, a j x)

  forget-Agrees :
      (o : Option K) (c : TtlCache K V) (last : K → Option (V × ℕ))
      → Agrees c last
      → Agrees (invalidate o c) (λ j. note j (forget o) (last j))
  unfolding note invalidate lookup
  forget-Agrees none c last a j x h = absurd (ground arith)
  forget-Agrees (some k) c last a j x h = ground (arith, lookup-remove k j c.store, a j x)

  -- One call keeps the invariant, the settings and the agreement with the ideal map.
  step_lem :
      (call : Call K V) (c : TtlCache K V) (last : K → Option (V × ℕ))
      → IsValid c
      → Agrees c last
      → (c' : TtlCache K V) × (step call c ≡ some c')
        × IsValid c'
        × (c'.ttl ≡ c.ttl)
        × Agrees c' (λ k. note k call (last k))
  unfolding step note invalidate
  step_lem (read k now) c last h a = (
    (get k now c).0,
    refl,
    get-IsValid k now c h,
    (get-settings k now c).0,
    read-Agrees k now c last a,
  )
  step_lem (write k v now) c last h a =
      let (c', done, valid) = put_total k v now c h in
      (
        c',
        done,
        valid,
        (put-settings k v now c done).0,
        write-Agrees k v now c c' last h.distinct done a,
      )
  step_lem (forget o) c last h a =
      (invalidate o c, refl, invalidate-IsValid o c h, ttl-invalidate o, forget-Agrees o c last a)
    where
      ttl-invalidate : (o : Option K) → (invalidate o c).ttl ≡ c.ttl
      ttl-invalidate none = refl
      ttl-invalidate (some k) = refl

  run_lem :
      (calls : List (Call K V)) (c : TtlCache K V) (last : K → Option (V × ℕ))
      → IsValid c
      → Agrees c last
      → (c' : TtlCache K V) × (run calls c ≡ some c')
        × IsValid c'
        × (c'.ttl ≡ c.ttl)
        × Agrees c' (λ k. ideal k calls (last k))
  unfolding run ideal
  run_lem [] c last h a = (c, refl, h, refl, a)
  run_lem (call ∷ calls) c last h a =
      let (c1, done1, h1, t1, a1) = step_lem call c last h a in
      let (c2, done2, h2, t2, a2) = run_lem calls c1 (λ k. note k call (last k)) h1 a1 in
      (c2, rw (done1, run) done2, h2, t2 ∙ t1, a2)

  -- From an empty cache of positive size no call raises, and the result holds at most `max_size`
  -- entries and no key twice.
  pub run_total :
      (size ttl : ℕ) (calls : List (Call K V))
      → 0 < size
      → (c : TtlCache K V) × (run calls (init size ttl) ≡ some c) × IsValid c
  unfolding init lookup
  run_total size ttl calls pos =
      let (c, done, h, t, a) =
        run_lem calls (init size ttl) (λ k. none) (init-IsValid size ttl pos) (λ k x. λ e. e) in
      (c, done, h)

  live_entry :
      (c : TtlCache K V) (now : ℕ) (o : Option (V × ℕ)) (v : V)
      → live c now o ≡ some v
      → (ts : ℕ) × (o ≡ some (v, ts)) × (now ≤ ts + c.ttl)
  live_entry c now none v h = cc
  live_entry c now (some (w, ts)) v h = (ts, ground arith, ground arith)

  -- After any calls, a read that returns a value returns the one that was last written to its key,
  -- with no invalidation since, at most `ttl` ticks ago.
  pub get_fresh :
      (size ttl : ℕ) (calls : List (Call K V)) (k : K) (now : ℕ) (c : TtlCache K V) (v : V)
      → 0 < size
      → run calls (init size ttl) ≡ some c
      → (get k now c).1 ≡ some v
      → (ts : ℕ) × (ideal k calls none ≡ some (v, ts)) × (now ≤ ts + ttl)
  unfolding init lookup
  get_fresh size ttl calls k now c v pos done found =
      let (c', done', h, t, a) =
        run_lem calls (init size ttl) (λ k. none) (init-IsValid size ttl pos) (λ k x. λ e. e) in
      let same : c ≡ c' = cc in
      let (ts, held, young) =
        live_entry c now (lookup k c.store) v (sym (result-get k now c) ∙ found) in
      (
        ts,
        a k (v, ts) (ap (λ (d : TtlCache K V). lookup k d.store) (sym same) ∙ held),
        omega (arith, t, ap (λ (d : TtlCache K V). d.ttl) same),
      )
