-- ===== src/Llm/Circuits.antt =====
-- llm_client.py: the circuit breaker of each (provider, model) path. Times are readings of
-- `time.monotonic()` in nanoseconds.
pub mod Laws
use indic_rag.Base.{
  Bool, Dict, String, [], if◌then◌else◌, insert, lookup, ltb, not, or_else, remove, ℕ, ◌*◌, ◌+◌,
  ◌-◌, nat_eq, string_eq, pair_eq,
}

abbrev pub Key : Type 0
Key = String × String

abbrev pub second : ℕ
second = 1_000_000_000

abbrev pub circuit_cooldown : ℕ
circuit_cooldown = 60 * second

abbrev pub circuit_trip_after : ℕ
circuit_trip_after = 3

-- `_circuit_breaker` holds the time at which a path opens again, `_circuit_failures` the failures
-- in a row
pub record Circuits : Type 0 where
  pub breaker : Dict Key ℕ
  pub failures : Dict Key ℕ

abbrev pub no_circuits : Circuits
no_circuits = record { breaker = []; failures = [] }

unfoldable pub circuit_blocked : Key → ℕ → Circuits → Bool
circuit_blocked key now s = ltb now (or_else (lookup key s.breaker) 0)

-- the count that a failure writes first
unfoldable pub counted : Key → Circuits → Circuits
counted key s = record s {
  failures = insert key (or_else (lookup key s.failures) 0 + 1) s.failures;
}

abbrev pub below_trip : Key → Circuits → Bool
below_trip key s = ltb (or_else (lookup key s.failures) 0) circuit_trip_after

unfoldable pub tripped : Key → ℕ → Circuits → Circuits
tripped key now s = record {
  breaker = insert key (now + circuit_cooldown) s.breaker;
  failures = remove key s.failures;
}

-- `_circuit_fail`; `local` tells a LocalRateLimitError. The clock is read only where the circuit
-- trips, so the reading is the argument of a function.
unfoldable pub circuit_fail : Key → Bool → ℕ → Circuits → Circuits
unfolding counted tripped
circuit_fail key local now s =
    if local
    then s
    else if below_trip key (counted key s)
    then counted key s
    else tripped key now (counted key s)

unfoldable pub circuit_clear : Key → Circuits → Circuits
circuit_clear key s = record { breaker = remove key s.breaker; failures = remove key s.failures }
