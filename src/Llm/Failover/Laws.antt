-- ===== src/Llm/Failover/Laws.antt =====
-- llm_client.py: one pass through the body of the failover loop.
use indic_rag.Llm.Circuits.{Key, Circuits, counted, below_trip, circuit_clear}
use indic_rag.Llm.Circuits.Laws.{IsBelowTrip, circuit_fail-IsBelowTrip}
use indic_rag.Llm.Routing.{Config}
use indic_rag.Llm.Failover.{
  Reply, answer, raised, Env, returned, has_backend, too_late, is_blocked, record_failure,
  call_backend, attempt,
}
use indic_rag.Base.{
  Bool-cases, Option, arith, inl, inr, lookup-remove, refl, ℕ, ◌||◌, ◌≡◌, nat_eq, string_eq,
  pair_eq,
}

module _ (env : Env) (cfg : Config) where
  open env use {World, Answer, Exn, clock, generate, is_permanent, is_local}

  record_failure-IsBelowTrip :
      (key : Key) (exc : Exn) (s : Circuits) (w : World)
      → IsBelowTrip s
      → IsBelowTrip (record_failure env cfg key exc s w).0
  unfolding record_failure
  record_failure-IsBelowTrip key exc s w h =
      elim (Bool-cases (is_local exc || below_trip key (counted key s))) [
        | inl quiet ↦ rw (quiet, record_failure) (circuit_fail-IsBelowTrip key (is_local exc) 0 s h)
        | inr loud ↦
            rw (loud, record_failure) (circuit_fail-IsBelowTrip key (is_local exc) (clock w).0 s h)
      ]

  circuit_clear-IsBelowTrip :
      (key : Key) (s : Circuits) → IsBelowTrip s → IsBelowTrip (circuit_clear key s)
  unfolding circuit_clear
  circuit_clear-IsBelowTrip key s h j = ground (arith, h j, lookup-remove key j s.failures)

  call_backend-IsBelowTrip :
      (key : Key) (s : Circuits) (w : World)
      → IsBelowTrip s
      → IsBelowTrip (call_backend env cfg key s w).1
  unfolding call_backend
  call_backend-IsBelowTrip key s w h = by_reply (generate key w).0 refl
    where
      by_reply :
          (r : Reply Answer Exn)
          → (generate key w).0 ≡ r
          → IsBelowTrip (call_backend env cfg key s w).1
      by_reply (answer a) e = rw (e, call_backend) (circuit_clear-IsBelowTrip key s h)
      by_reply (raised exc) e = elim (Bool-cases (is_permanent key.0 exc)) [
        | inl p ↦ rw (e, p, call_backend) h
        | inr p ↦
            rw (e, p, call_backend) (record_failure-IsBelowTrip key exc s (generate key w).1 h)
      ]

  -- a returned answer is the reply of the path's backend, whose circuit is then cleared
  pub record Answered (key : Key) (a : Answer) (s s' : Circuits) : Type 0 where
    pub before : World
    pub replied : (generate key before).0 ≡ answer a
    pub cleared : s' ≡ circuit_clear key s

  pub attempt-returned :
      (deadline : Option ℕ) (last : Option Exn) (key : Key) (s : Circuits) (w : World) (a : Answer)
      → (attempt env cfg deadline last key s w).0 ≡ returned a
      → Answered key a s (attempt env cfg deadline last key s w).1
  unfolding attempt call_backend
  attempt-returned deadline last key s w a h = record {
    before = (is_blocked env cfg key s (too_late env cfg deadline w).1).1;
    replied = ground arith;
    cleared = ground arith;
  }

  pub attempt-IsBelowTrip :
      (deadline : Option ℕ) (last : Option Exn) (key : Key) (s : Circuits) (w : World)
      → IsBelowTrip s
      → IsBelowTrip (attempt env cfg deadline last key s w).1
  unfolding attempt
  attempt-IsBelowTrip deadline last key s w h =
      let w1 = (too_late env cfg deadline w).1 in
      let w2 = (is_blocked env cfg key s w1).1 in
      elim (Bool-cases (too_late env cfg deadline w).0) [
        | inl late ↦ rw (late, attempt) h
        | inr time ↦ elim (Bool-cases (is_blocked env cfg key s w1).0) [
          | inl blocked ↦ rw (time, blocked, attempt) h
          | inr open_path ↦ elim (Bool-cases (has_backend cfg key.0)) [
            | inl found ↦ rw (time, open_path, found, attempt) (call_backend-IsBelowTrip key s w2 h)
            | inr missing ↦ rw (time, open_path, missing, attempt) h
          ]
        ]
      ]
