-- ===== src/Llm/Circuits/Laws.antt =====
-- llm_client.py: sequences of failures and successes of a path.
use indic_rag.Llm.Circuits.{
  Key, circuit_cooldown, circuit_trip_after, Circuits, circuit_blocked, circuit_fail, circuit_clear,
}
use indic_rag.Base.{
  ==_iff, ==_refl, Bool, String, arith, false, if◌then◌else◌, insert, lookup, lookup-insert,
  lookup-remove, ltb, none, or_else, pair_eq, some, ℕ, ◌+◌, ◌<◌, ◌∙◌, ◌≡◌, ◌≢◌, nat_eq, string_eq,
}

-- No stored count reaches the trip level.
abbrev pub IsBelowTrip : Circuits → Type 0
IsBelowTrip s = (key : Key) → or_else (lookup key s.failures) 0 < circuit_trip_after

pub circuit_fail-IsBelowTrip :
    (key : Key) (local : Bool) (now : ℕ) (s : Circuits)
    → IsBelowTrip s
    → IsBelowTrip (circuit_fail key local now s)
unfolding circuit_fail
circuit_fail-IsBelowTrip key local now s h j =
    let e = pair_eq {A = String} {B = String} in
    ground (
      arith,
      h j,
      h key,
      ==_iff key j,
      lookup-insert key j (or_else (lookup key s.failures) 0 + 1) s.failures,
      lookup-insert key key (or_else (lookup key s.failures) 0 + 1) s.failures,
      lookup-remove key j (insert key (or_else (lookup key s.failures) 0 + 1) s.failures),
    )

abbrev pub fail_at : Key → ℕ → Circuits → Circuits
fail_at key now s = circuit_fail key false now s

-- the count of a key's failures after one more, and its opening time
failures-circuit_fail :
    (key : Key) (now : ℕ) (s : Circuits)
    → or_else (lookup key (fail_at key now s).failures) 0 ≡ (
        if ltb (or_else (lookup key s.failures) 0 + 1) circuit_trip_after
        then or_else (lookup key s.failures) 0 + 1
        else 0)
unfolding circuit_fail
failures-circuit_fail key now s = ground (
  arith,
  ==_refl key,
  lookup-insert key key (or_else (lookup key s.failures) 0 + 1) s.failures,
  lookup-remove key key (insert key (or_else (lookup key s.failures) 0 + 1) s.failures),
)

breaker-circuit_fail :
    (key : Key) (now : ℕ) (s : Circuits)
    → lookup key (fail_at key now s).breaker ≡ (
        if ltb (or_else (lookup key s.failures) 0 + 1) circuit_trip_after
        then lookup key s.breaker
        else some (now + circuit_cooldown))
unfolding circuit_fail
breaker-circuit_fail key now s = ground (
  arith,
  ==_refl key,
  lookup-insert key key (or_else (lookup key s.failures) 0 + 1) s.failures,
  lookup-insert key key (now + circuit_cooldown) s.breaker,
)

-- From a path with no failure counted, two failures leave the circuit as it is, and the third
-- blocks the path exactly until 60 seconds after it.
pub trip_exact :
    (key : Key) (t1 t2 t3 now : ℕ) (s : Circuits)
    → lookup key s.failures ≡ none
    → (circuit_blocked key now (fail_at key t2 (fail_at key t1 s)) ≡ circuit_blocked key now s)
      × (circuit_blocked key now (fail_at key t3 (fail_at key t2 (fail_at key t1 s)))
          ≡ ltb now (t3 + circuit_cooldown))
unfolding circuit_blocked
trip_exact key t1 t2 t3 now s h =
    let one = fail_at key t1 s in
    let two = fail_at key t2 one in
    ground (
      arith,
      failures-circuit_fail key t1 s,
      failures-circuit_fail key t2 one,
      breaker-circuit_fail key t1 s,
      breaker-circuit_fail key t2 one,
      breaker-circuit_fail key t3 two,
    )

-- A success forgets the failures before it: two more do not block the path.
pub clear_resets :
    (key : Key) (t1 t2 now : ℕ) (s : Circuits)
    → circuit_blocked key now (fail_at key t2 (fail_at key t1 (circuit_clear key s))) ≡ false
unfolding circuit_clear
clear_resets key t1 t2 now s =
    (trip_exact key t1 t2 0 now (circuit_clear key s)
      (ground (arith, ==_refl key, lookup-remove key key s.failures))).0
    ∙ unblocked
  where
    unblocked : circuit_blocked key now (circuit_clear key s) ≡ false
    unblocked =
        unfold circuit_blocked in ground (arith, ==_refl key, lookup-remove key key s.breaker)

-- The failures and the successes of one path leave every other path as it was.
pub circuits_isolated :
    (key j : Key) (local : Bool) (t now : ℕ) (s : Circuits)
    → key ≢ j
    → (circuit_blocked j now (circuit_fail key local t s) ≡ circuit_blocked j now s)
      × (circuit_blocked j now (circuit_clear key s) ≡ circuit_blocked j now s)
unfolding circuit_blocked circuit_fail circuit_clear
circuits_isolated key j local t now s h = ground (
  arith,
  ==_iff key j,
  lookup-insert key j (t + circuit_cooldown) s.breaker,
  lookup-remove key j s.breaker,
)
