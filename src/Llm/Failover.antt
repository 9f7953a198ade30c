-- ===== src/Llm/Failover.antt =====
-- llm_client.py: `generate_with_failover`. The providers, the clock and the exceptions are outside
-- of the source: a value of `Env` says what they do to the world.
pub mod Laws
pub mod Chain
pub mod Available
use indic_rag.Llm.Circuits.{
  Key, Circuits, circuit_blocked, below_trip, counted, circuit_fail, circuit_clear,
}
use indic_rag.Llm.Routing.{Config, resolve_provider, attempts}
use indic_rag.Base.{
  Bool, List, Option, String, [], any, false, if◌then◌else◌, is_some, ltb, min, none, not, some,
  true, ℕ, ◌+◌, ◌-◌, ◌<◌, ◌==◌, ◌||◌, ◌∷◌, nat_eq, string_eq, pair_eq,
}

-- what a call of a backend gives
pub data Reply (A E : Type 0) : Type 0 where
  answer : A → Reply A E
  raised : E → Reply A E

pub record Env : Type 1 where
  pub World : Type 0
  pub Answer : Type 0
  pub Chunk : Type 0
  pub Exn : Type 0
  -- time.monotonic()
  pub clock : World → ℕ × World
  -- backend.generate(model, contents, gen_config), for the contents and configuration of the call
  pub generate : Key → World → Reply Answer Exn × World
  -- backend.generate_stream: the chunks, and the exception that ends them, if one does
  pub stream : Key → World → List Chunk × Option Exn × World
  pub is_permanent : String → Exn → Bool
  -- type(exc).__name__ == "LocalRateLimitError"
  pub is_local : Exn → Bool

-- what a failover raises; `type_error` would be a `raise None`
pub data Failure (E : Type 0) : Type 0 where
  backend_error : E → Failure E
  deadline_exceeded all_open unknown_provider type_error : Failure E

pub data Result (A E : Type 0) : Type 0 where
  ok : A → Result A E
  err : Failure E → Result A E

-- What one pass through the loop's body does: it ends the function, or goes on, with or without
-- an attempt.
pub data Pass (A E : Type 0) : Type 0 where
  returned : A → Pass A E
  stopped : Failure E → Pass A E
  skipped : Pass A E
  failed : E → Pass A E

module _ (cfg : Config) where
  -- `get_backend(prov)` finds or builds a backend
  unfoldable pub has_backend : String → Bool
  has_backend prov =
      prov == "gemini"
      || prov == "openrouter"
      || cfg.in_backends prov
      || is_some (cfg.provider_settings prov)

module _ (env : Env) (cfg : Config) where
  open env use {World, Answer, Exn, clock, generate, is_permanent, is_local}

  -- `raise last_exc`
  abbrev pub raise_last : Option Exn → Failure Exn
  raise_last none = type_error
  raise_last (some exc) = backend_error exc

  -- the failure that stops the chain when too little time is left
  abbrev pub out_of_time : Option Exn → Failure Exn
  out_of_time none = deadline_exceeded
  out_of_time (some exc) = backend_error exc

  -- `deadline - time.monotonic() < LLM_MIN_ATTEMPT_S`; without a deadline the clock is not read
  unfoldable pub too_late : Option ℕ → World → Bool × World
  too_late none w = (false, w)
  too_late (some deadline) w = let (now, w') = clock w in (ltb deadline (now + cfg.min_attempt), w')

  unfoldable pub is_blocked : Key → Circuits → World → Bool × World
  is_blocked key s w = let (now, w') = clock w in (circuit_blocked key now s, w')

  -- `_circuit_fail`: the clock is read only when the circuit trips
  unfoldable pub record_failure : Key → Exn → Circuits → World → Circuits × World
  record_failure key exc s w =
      if is_local exc || below_trip key (counted key s)
      then (circuit_fail key (is_local exc) 0 s, w)
      else (let (now, w') = clock w in (circuit_fail key (is_local exc) now s, w'))

  -- the call, and what is made of its outcome
  unfoldable pub call_backend : Key → Circuits → World → Pass Answer Exn × Circuits × World
  call_backend key s w =
      let (reply, w') = generate key w in
      elim reply [
        | answer a ↦ (returned a, circuit_clear key s, w')
        | raised exc ↦
            if is_permanent key.0 exc
            then (stopped (backend_error exc), s, w')
            else (let (s', w'') = record_failure key exc s w' in (failed exc, s', w''))
      ]

  -- one pass through the body of the loop
  unfoldable pub attempt :
      Option ℕ → Option Exn → Key → Circuits → World → Pass Answer Exn × Circuits × World
  attempt deadline last key s w =
      let (late, w1) = too_late deadline w in
      if late
      then (stopped (out_of_time last), s, w1)
      else (let (blocked, w2) = is_blocked key s w1 in
          if blocked
          then (skipped, s, w2)
          else if has_backend cfg key.0
          then call_backend key s w2
          else (stopped unknown_provider, s, w2))

  unfoldable pub failover :
      Option ℕ
      → List Key
      → Option Exn
      → Bool
      → Circuits
      → World
      → Result Answer Exn × Circuits × World
  failover deadline [] last any_attempted s w =
      (err (if any_attempted then raise_last last else all_open), s, w)
  failover deadline (key ∷ rest) last any_attempted s w =
      let (pass, s', w') = attempt deadline last key s w in
      elim pass [
        | returned a ↦ (ok a, s', w')
        | stopped failure ↦ (err failure, s', w')
        | skipped ↦ failover deadline rest last any_attempted s' w'
        | failed exc ↦ failover deadline rest (some exc) true s' w'
      ]

  unfoldable pub generate_with_failover :
      String → Option String → Option ℕ → Circuits → World → Result Answer Exn × Circuits × World
  generate_with_failover model provider deadline s w =
      failover deadline (attempts cfg model (resolve_provider cfg model provider)) none false s w
