-- ===== src/Store.antt =====
-- vector_store.py: the circuit breaker of ChromaDB and a call behind it. Times are in milliseconds.
pub mod Documents
pub mod Rollback
pub mod Added
pub mod Kept
pub mod Breaks
pub mod Deletion
pub mod Papers
pub mod Steps
pub mod Removed
use indic_rag.Base.{
  Bool, List, [], ap, false, if◌then◌else◌, leb, ltb, suc, take, true, ℕ, ◌++◌, ◌+◌, ◌-◌, ◌∷◌,
}

-- `_circuit_until` and `_circuit_failures`
pub record Breaker : Type 0 where
  pub until : ℕ
  pub failures : ℕ

abbrev pub cooldown : ℕ
cooldown = 60000

abbrev pub trip_after : ℕ
trip_after = 3

abbrev pub circuit_open : ℕ → Breaker → Bool
circuit_open now b = ltb now b.until

unfoldable pub record_failure : ℕ → Breaker → Breaker
record_failure now b =
    if leb trip_after (b.failures + 1)
    then record { until = now + cooldown; failures = 0 }
    else record b { failures = b.failures + 1 }

unfoldable pub record_success : Breaker → Breaker
record_success b = record b { failures = 0 }

-- What becomes of a call of the client: it returns, it raises, with or without its effect, or it is
-- given up, and its effect has come by then, never comes, or comes later.
pub data Outcome : Type 0 where
  returned : Outcome
  raised : Bool → Outcome
  landed lost pending : Outcome

-- the clock when the call is made and when it is given up
pub record Reply : Type 0 where
  pub now : ℕ
  pub given_up : ℕ
  pub outcome : Outcome

-- the collection, the breaker, and the effects of calls given up that still come
pub record World (C : Type 0) : Type 0 where
  pub collection : C
  pub breaker : Breaker
  pub late : List (C → C)

abbrev pub takes_effect : Outcome → Bool
takes_effect returned = true
takes_effect (raised applied) = applied
takes_effect landed = true
takes_effect lost = false
takes_effect pending = false

abbrev pub comes_later : Outcome → Bool
comes_later pending = true
comes_later _ = false

abbrev pub is_returned : Outcome → Bool
is_returned returned = true
is_returned _ = false

unfoldable pub breaker_after : Reply → Outcome → Breaker → Breaker
unfolding record_failure record_success
breaker_after r returned b = record_success b
breaker_after r (raised applied) b = b
breaker_after r _ b = record_failure r.given_up b

module _ {C : Type 0} where
  -- `_chroma_call`: whether it returned, and what it left
  unfoldable pub chroma_call : Reply → (C → C) → World C → Bool × World C
  unfolding breaker_after
  chroma_call r fn w = if circuit_open r.now w.breaker then (false, w) else (
    is_returned r.outcome,
    record {
      collection = if takes_effect r.outcome then fn w.collection else w.collection;
      breaker = breaker_after r r.outcome w.breaker;
      late = if comes_later r.outcome then w.late ++ fn ∷ [] else w.late;
    },
  )
