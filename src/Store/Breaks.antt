-- ===== src/Store/Breaks.antt =====
-- vector_store.py: the circuit breaker does not refuse the rollback of a failed `add_documents`.
use indic_rag.Store.{
  Breaker, circuit_open, record_failure, record_success, Outcome, Reply, World, is_returned,
  breaker_after, chroma_call, returned, raised, landed, lost, pending,
}
use indic_rag.Store.Documents.{
  Chunk, Chroma, Provenance, Ending, stamped, preexisting, upsert_all, roll_back, add_documents,
  added, failed,
}
use indic_rag.Store.Added.{round, upsert_all_on, upsert_all_stop}
use indic_rag.Base.{
  Bool, Bool-cases, Dict, List, Text, [], ap, arith, drop, false, if◌then◌else◌, inl, inr, is_empty,
  keep_if, keys, length, max, mem, not, refl, subst, suc, sym, take, true, zero, ℕ, ◌++◌, ◌∙◌, ◌∷◌,
  ◌≡◌, ◌≤◌, ◌⊎◌, nat_eq, string_eq, pair_eq, list_eq,
}

-- the clock does not go back from one call to the next
abbrev pub Forward : (ℕ → Reply) → Type 0
Forward replies =
    (n : ℕ)
    → ((replies n).now ≤ (replies n).given_up) × ((replies n).given_up ≤ (replies (suc n)).now)

-- the first call returns, and no two calls behind it in a row fail to
abbrev pub FailsAlone : (ℕ → Reply) → Type 0
FailsAlone replies =
    (is_returned (replies 0).outcome ≡ true)
    × ((n : ℕ)
        → is_returned (replies (suc n)).outcome ≡ false
        → is_returned (replies (suc (suc n))).outcome ≡ true)

-- closed at a time, with no failure counted
abbrev Calm : ℕ → Breaker → Type 0
Calm now b = (b.until ≤ now) × (b.failures ≡ 0)

breaker_after-Calm :
    (r : Reply) (o : Outcome) (b : Breaker) (now : ℕ)
    → is_returned o ≡ true
    → b.until ≤ r.now
    → r.now ≤ now
    → Calm now (breaker_after r o b)
unfolding breaker_after record_success
breaker_after-Calm r returned b now h u n = (omega arith, refl)
breaker_after-Calm r (raised a) b now h u n = cc
breaker_after-Calm r landed b now h u n = cc
breaker_after-Calm r lost b now h u n = cc
breaker_after-Calm r pending b now h u n = cc

breaker_after-until :
    (r : Reply) (o : Outcome) (b : Breaker) → b.failures ≡ 0 → (breaker_after r o b).until ≡ b.until
unfolding breaker_after record_success record_failure
breaker_after-until r returned b h = refl
breaker_after-until r (raised a) b h = refl
breaker_after-until r landed b h = ground (arith, h)
breaker_after-until r lost b h = ground (arith, h)
breaker_after-until r pending b h = ground (arith, h)

module _ {C : Type 0} where
  -- a call that is made returns as its outcome says
  call_closed :
      (r : Reply) (fn : C → C) (w : World C)
      → w.breaker.until ≤ r.now
      → ((chroma_call r fn w).0 ≡ is_returned r.outcome)
        × ((chroma_call r fn w).1.breaker ≡ breaker_after r r.outcome w.breaker)
  unfolding chroma_call
  call_closed r fn w h =
      let closed : circuit_open r.now w.breaker ≡ false = ground arith in
      (rw closed refl, rw closed refl)

module _ {V C : Type 0} (chroma : Chroma V C) (replies : ℕ → Reply) where
  -- after the loop: all calls returned, or the next call is made and returns
  Rescued : Bool × List Text × ℕ × World C → Type 0
  Rescued r =
      (r.0 ≡ true)
      ⊎ ((r.3.breaker.until ≤ (replies r.2).now) × (is_returned (replies r.2).outcome ≡ true))

  upsert_all-Rescued :
      (fuel k batch : ℕ) (rows : Dict Text (Chunk V)) (attempted : List Text) (w : World C)
      → Forward replies
      → FailsAlone replies
      → Calm (replies (suc k)).now w.breaker
      → Rescued (upsert_all chroma replies fuel (suc k) batch rows attempted w)
  unfolding Rescued
  upsert_all-Rescued zero k batch rows attempted w fw alone calm = unfold upsert_all in inl refl
  upsert_all-Rescued (suc fuel) k batch [] attempted w fw alone calm = unfold upsert_all in inl refl
  upsert_all-Rescued (suc fuel) k batch (row ∷ rows) attempted w fw alone calm =
      let call = round chroma replies fuel (suc k) batch row rows attempted w in
      let made = call_closed (replies (suc k)) (chroma.upsert (take batch (row ∷ rows))) w calm.0 in
      let next = (fw (suc k)) in
      elim (Bool-cases (is_returned (replies (suc k)).outcome)) [
        | inl ok ↦
            subst Rescued
              (sym (
                upsert_all_on chroma replies fuel (suc k) batch row rows attempted w (made.0 ∙ ok)))
              (upsert_all-Rescued fuel (suc k) batch (drop batch (row ∷ rows))
                (attempted ++ keys (take batch (row ∷ rows))) call.1 fw alone
                (subst (Calm (replies (suc (suc k))).now) (sym made.1) (
                  breaker_after-Calm (replies (suc k)) (replies (suc k)).outcome w.breaker
                    (replies (suc (suc k))).now ok calm.0 (omega (arith, next.0, next.1)))))
        | inr bad ↦
            subst Rescued
              (sym (
                upsert_all_stop chroma replies fuel (suc k) batch row rows attempted w
                  (made.0 ∙ bad)))
              (inr (
                omega (
                  arith,
                  next.0,
                  next.1,
                  calm.0,
                  ap (λ b. b.until) made.1,
                  breaker_after-until (replies (suc k)) (replies (suc k)).outcome w.breaker calm.1,
                ),
                alone.1 k bad,
              ))
      ]

  roll_back_made :
      (existing attempted : List Text) (k : ℕ) (w : World C)
      → w.breaker.until ≤ (replies k).now
      → is_returned (replies k).outcome ≡ true
      → (roll_back chroma replies existing attempted k w).0 ≡ true
  unfolding roll_back
  roll_back_made existing attempted k w u ok = go (keep_if (λ j. not (mem j existing)) attempted)
    where
      go :
          (orphans : List Text)
          → (if is_empty orphans
              then (true, w)
              else chroma_call (replies k) (chroma.delete orphans) w).0
            ≡ true
      go [] = refl
      go (j ∷ orphans) = (call_closed (replies k) (chroma.delete (j ∷ orphans)) w u).0 ∙ ok

  all_or_nothing :
      (ok checked undone : Bool) (written left : World C)
      → checked ≡ true
      → (ok ≡ true) ⊎ (undone ≡ true)
      → (let r : Ending × World C =
            (if ok then (added, written) else (failed checked undone, left)) in
          (r.0 ≡ added) ⊎ (r.0 ≡ failed true true))
  all_or_nothing true checked undone written left c o = inl refl
  all_or_nothing false checked undone written left c (inl never) = cc
  all_or_nothing false checked undone written left c (inr u) = inr (λ i. failed (c i) (u i))

  -- From a breaker that is closed, if the check of the ids returns and no two calls in a row fail
  -- after it, `add_documents` returns, or it raises having undone its writes: a time-out of a write
  -- does not open the breaker before the deletion that undoes it.
  pub add_documents_undone :
      (p : Provenance) (upsert_batch : ℕ) (rows : Dict Text (Chunk V)) (w : World C)
      → w.breaker.until ≤ (replies 0).now
      → Forward replies
      → FailsAlone replies
      → (let ending = (add_documents chroma replies p upsert_batch rows w).0 in
          (ending ≡ added) ⊎ (ending ≡ failed true true))
  unfolding add_documents
  add_documents_undone p upsert_batch rows w u fw alone =
      let documents = stamped chroma replies p rows in
      let checking = preexisting chroma replies (keys documents) w in
      let looped =
        upsert_all chroma replies (length documents) 1 (max 1 upsert_batch) documents []
          checking.2 in
      let undoing = roll_back chroma replies checking.1 looped.1 looped.2 looped.3 in
      let first = call_closed (replies 0) (λ c. c) w u in
      let calm : Calm (replies 1).now checking.2.breaker =
        unfold preexisting in
        subst (Calm (replies 1).now) (sym first.1) (
          breaker_after-Calm (replies 0) (replies 0).outcome w.breaker (replies 1).now alone.0 u
            (omega (arith, (fw 0).0, (fw 0).1))) in
      all_or_nothing looped.0 checking.0 undoing.0 looped.3 undoing.1
        (unfold preexisting in first.0 ∙ alone.0)
        (unfold Rescued in
          elim (upsert_all-Rescued (length documents) 0 (max 1 upsert_batch) documents [] checking.2
            fw alone calm) [
              | inl ok ↦ inl ok
              | inr (closed, made) ↦
                  inr (roll_back_made checking.1 looped.1 looped.2 looped.3 closed made)
            ])
