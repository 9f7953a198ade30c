-- ===== src/Llm/Failover/Available.antt =====
-- llm_client.py: the outcomes of a failover chain, by the state of its paths.
use mathlib.Core.Path.{subst}
use indic_rag.Llm.Circuits.{
  Key, Circuits, circuit_blocked, circuit_fail, circuit_clear, circuit_cooldown,
}
use indic_rag.Llm.Routing.{Config, resolve_provider, attempts}
use indic_rag.Llm.Failover.{
  Reply, answer, raised, Env, Failure, all_open, type_error, ok, err, returned, stopped, skipped,
  has_backend, too_late, is_blocked, record_failure, call_backend, attempt, failover,
  generate_with_failover,
}
use indic_rag.Llm.Failover.Chain.{failover_cases}
use indic_rag.Base.{
  ==_iff, All, Bool, Bool-cases, List, Option, String, [], ap, arith, false, inl, inr, is_some,
  length, lookup, lookup-insert, lookup-remove, mem, none, refl, some, suc, sym, true, zero, ℕ, ◌+◌,
  ◌==◌, ◌∙◌, ◌∷◌, ◌≡◌, ◌≢◌, nat_eq, string_eq, pair_eq,
}

module _ (env : Env) (cfg : Config) where
  open env use {World, Answer, Exn, clock, generate, is_permanent, is_local}

  -- what a pass stops with is never a `raise None`
  stopped-ne-type_error :
      (deadline : Option ℕ) (last : Option Exn) (key : Key) (s : Circuits) (w : World)
      → (attempt env cfg deadline last key s w).0 ≢ stopped type_error
  unfolding attempt call_backend
  stopped-ne-type_error deadline last key s w h = ground arith

  failover-ne-type_error :
      (deadline : Option ℕ) (chain : List Key) (last : Option Exn) (tried : Bool) (s : Circuits)
      (w : World)
      → tried ≡ is_some last
      → (failover env cfg deadline chain last tried s w).0 ≢ err type_error
  failover-ne-type_error deadline [] last tried s w h = unfold failover in λ e. ground arith
  failover-ne-type_error deadline (key ∷ rest) last tried s w h =
      let pass = attempt env cfg deadline last key s w in
      failover_cases env cfg (λ o. o.0 ≢ err type_error) deadline key rest last tried s w
        (λ a e. λ same. cc)
        (λ f e. λ same. stopped-ne-type_error deadline last key s w (e ∙ ap stopped (ground arith)))
        (λ e. failover-ne-type_error deadline rest last tried pass.1 pass.2 h)
        (λ x e. failover-ne-type_error deadline rest (some x) true pass.1 pass.2 refl)

  -- The last line of the function always has an exception to raise.
  pub no_raise_none :
      (model : String) (provider : Option String) (deadline : Option ℕ) (s : Circuits) (w : World)
      → (generate_with_failover env cfg model provider deadline s w).0 ≢ err type_error
  unfolding generate_with_failover
  no_raise_none model provider deadline s w =
      failover-ne-type_error deadline (attempts cfg model (resolve_provider cfg model provider))
        none false s w refl

  -- the world after `n` readings of the clock, with nothing else done
  abbrev pub clock_only : ℕ → World → World
  clock_only zero w = w
  clock_only (suc n) w = clock_only n (clock w).1

  blocked_pass :
      (key : Key) (last : Option Exn) (s : Circuits) (w : World)
      → circuit_blocked key (clock w).0 s ≡ true
      → attempt env cfg none last key s w ≡ (skipped, s, (clock w).1)
  unfolding attempt too_late is_blocked
  blocked_pass key last s w h = rw (h, attempt)

  -- While the circuit of every path is open no backend is called: the chain reads the clock once
  -- for each path, changes nothing, and says that all paths are open.
  pub all_open_lem :
      (chain : List Key) (s : Circuits) (w : World)
      → All (λ key. (v : World) → circuit_blocked key (clock v).0 s ≡ true) chain
      → failover env cfg none chain none false s w ≡ (err all_open, s, clock_only (length chain) w)
  unfolding failover
  all_open_lem [] s w h = refl
  all_open_lem (key ∷ rest) s w h =
      ground (arith, blocked_pass key none s w (h.0 w), all_open_lem rest s (clock w).1 h.1)

  -- A path that answers whenever it is asked.
  pub record Healthy (key : Key) : Type 0 where
    pub found : has_backend cfg key.0 ≡ true
    pub answers : (w : World) → (a : Answer) × ((generate key w).0 ≡ answer a)

  -- A path whose failures are all of the kind that the chain goes past.
  pub record Passable (key : Key) : Type 0 where
    pub found : has_backend cfg key.0 ≡ true
    pub transient :
        (w : World) (x : Exn) → (generate key w).0 ≡ raised x → is_permanent key.0 x ≡ false

  Passable-goes_on :
      (key : Key) (last : Option Exn) (s : Circuits) (w : World) (f : Failure Exn)
      → Passable key
      → (attempt env cfg none last key s w).0 ≢ stopped f
  unfolding attempt call_backend too_late
  Passable-goes_on key last s w f p h =
      by_reply (generate key (is_blocked env cfg key s w).1).0 refl
    where
      by_reply : (r : Reply Answer Exn) → (generate key (is_blocked env cfg key s w).1).0 ≡ r → ⊥
      by_reply (answer a) e = ground (arith, p.found)
      by_reply (raised x) e =
          ground (arith, p.found, p.transient (is_blocked env cfg key s w).1 x e)

  Healthy-answers :
      (key : Key) (last : Option Exn) (s : Circuits) (w : World)
      → Healthy key
      → lookup key s.breaker ≡ none
      → (a : Answer) × ((attempt env cfg none last key s w).0 ≡ returned a)
  unfolding attempt call_backend too_late is_blocked circuit_blocked
  Healthy-answers key last s w p closed =
      let (a, e) = p.answers (clock w).1 in (a, ground (arith, p.found))

  -- the attempts at one path leave the breaker of another as it was
  attempt_isolated :
      (key j : Key) (last : Option Exn) (s : Circuits) (w : World)
      → key ≢ j
      → lookup j (attempt env cfg none last key s w).1.breaker ≡ lookup j s.breaker
  unfolding attempt call_backend too_late record_failure circuit_fail circuit_clear
  attempt_isolated key j last s w h =
      let w1 = (is_blocked env cfg key s w).1 in
      ground (
        arith,
        ==_iff key j,
        lookup-remove key j s.breaker,
        lookup-insert key j ((clock (generate key w1).1).0 + circuit_cooldown) s.breaker,
      )

  -- With no deadline, if every path of the chain names a backend that is registered and its failures
  -- are not permanent, and one path of the chain always answers and has no open circuit, the chain
  -- answers. (A path whose backend is not registered ends the chain with a ValueError, also in front
  -- of a healthy one.)
  pub failover_available :
      (chain : List Key) (key : Key) (last : Option Exn) (tried : Bool) (s : Circuits) (w : World)
      → All Passable chain
      → mem key chain ≡ true
      → Healthy key
      → lookup key s.breaker ≡ none
      → (a : Answer) × ((failover env cfg none chain last tried s w).0 ≡ ok a)
  failover_available [] key last tried s w p m h closed = cc
  failover_available (k ∷ rest) key last tried s w p m h closed =
      let pass = attempt env cfg none last k s w in
      elim (Bool-cases (k == key)) [
        | inl same ↦
            let this = (==_iff k key).0 same in
            let (a, answered) =
              Healthy-answers k last s w (subst Healthy (sym this) h)
                (ap (λ j. lookup j s.breaker) this ∙ closed) in
            failover_cases env cfg (λ o. (a : Answer) × (o.0 ≡ ok a)) none k rest last tried s w
              (λ b e. (b, refl)) (λ f e. cc) (λ e. cc) (λ x e. cc)
        | inr other ↦
            let kept =
              attempt_isolated k key last s w (λ e. cc (other, (==_iff k key).1 e)) ∙ closed in
            failover_cases env cfg (λ o. (a : Answer) × (o.0 ≡ ok a)) none k rest last tried s w
              (λ a e. (a, refl)) (λ f e. absurd (Passable-goes_on k last s w f p.0 e))
              (λ e. failover_available rest key last tried pass.1 pass.2 p.1 (ground arith) h kept)
              (λ x e.
                failover_available rest key (some x) true pass.1 pass.2 p.1 (ground arith) h kept)
      ]
