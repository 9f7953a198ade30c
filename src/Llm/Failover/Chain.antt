-- ===== src/Llm/Failover/Chain.antt =====
-- llm_client.py: where the answer of a failover chain comes from.
use indic_rag.Llm.Circuits.{Key, Circuits, circuit_clear}
use indic_rag.Llm.Circuits.Laws.{IsBelowTrip}
use indic_rag.Llm.Routing.{Config}
use indic_rag.Llm.Failover.{
  answer, Env, Failure, Result, ok, err, Pass, returned, stopped, skipped, failed, attempt,
  failover,
}
use indic_rag.Llm.Failover.Laws.{attempt-returned, attempt-IsBelowTrip}
use indic_rag.Base.{
  ==_refl, Bool, List, Option, [], ap, arith, lookup, lookup-remove, mem, none, refl, some, true, ℕ,
  ◌∙◌, ◌∷◌, ◌≡◌, nat_eq, string_eq, pair_eq,
}

module _ (env : Env) (cfg : Config) where
  open env use {World, Answer, Exn, clock, generate, is_permanent, is_local}

  abbrev pub Outcome : Type 0
  Outcome = Result Answer Exn × Circuits × World

  -- One round of the loop, by what its pass does.
  pub failover_cases {ℓ} :
      (P : Outcome → Type ℓ) (deadline : Option ℕ) (key : Key) (rest : List Key) (last : Option Exn)
      (tried : Bool) (s : Circuits) (w : World)
      → (let pass = attempt env cfg deadline last key s w in
          ((a : Answer) → pass.0 ≡ returned a → P (ok a, pass.1, pass.2))
          → ((f : Failure Exn) → pass.0 ≡ stopped f → P (err f, pass.1, pass.2))
          → (pass.0 ≡ skipped → P (failover env cfg deadline rest last tried pass.1 pass.2))
          → ((x : Exn)
              → pass.0 ≡ failed x
              → P (failover env cfg deadline rest (some x) true pass.1 pass.2))
          → P (failover env cfg deadline (key ∷ rest) last tried s w))
  unfolding failover
  failover_cases P deadline key rest last tried s w on_return on_stop on_skip on_fail =
      by_pass (attempt env cfg deadline last key s w).0 refl
    where
      by_pass :
          (p : Pass Answer Exn)
          → (attempt env cfg deadline last key s w).0 ≡ p
          → P (failover env cfg deadline (key ∷ rest) last tried s w)
      by_pass (returned a) e = rw (e, failover) (on_return a e)
      by_pass (stopped f) e = rw (e, failover) (on_stop f e)
      by_pass skipped e = rw (e, failover) (on_skip e)
      by_pass (failed x) e = rw (e, failover) (on_fail x e)

  -- A chain keeps every failure count below the level that trips a circuit.
  pub failover-IsBelowTrip :
      (deadline : Option ℕ) (chain : List Key) (last : Option Exn) (tried : Bool) (s : Circuits)
      (w : World)
      → IsBelowTrip s
      → IsBelowTrip (failover env cfg deadline chain last tried s w).1
  failover-IsBelowTrip deadline [] last tried s w h = unfold failover in h
  failover-IsBelowTrip deadline (key ∷ rest) last tried s w h =
      let h' = attempt-IsBelowTrip env cfg deadline last key s w h in
      let pass = attempt env cfg deadline last key s w in
      failover_cases (λ o. IsBelowTrip o.1) deadline key rest last tried s w (λ a e. h') (λ f e. h')
        (λ e. failover-IsBelowTrip deadline rest last tried pass.1 pass.2 h')
        (λ x e. failover-IsBelowTrip deadline rest (some x) true pass.1 pass.2 h')

  -- an answer of a path of the chain, whose circuit is closed
  pub record FromChain (chain : List Key) (a : Answer) (s : Circuits) : Type 0 where
    pub path : Key
    pub listed : mem path chain ≡ true
    pub asked : World
    pub replied : (generate path asked).0 ≡ answer a
    pub closed : (lookup path s.breaker ≡ none) × (lookup path s.failures ≡ none)

  cleared_path :
      (key : Key) (s : Circuits)
      → (lookup key (circuit_clear key s).breaker ≡ none)
        × (lookup key (circuit_clear key s).failures ≡ none)
  unfolding circuit_clear
  cleared_path key s =
      ground (arith, ==_refl key, lookup-remove key key s.breaker, lookup-remove key key s.failures)

  longer :
      (key : Key) (rest : List Key) (a : Answer) (s : Circuits)
      → FromChain rest a s
      → FromChain (key ∷ rest) a s
  longer key rest a s f = record {
    path = f.path;
    listed = ground (arith, f.listed);
    asked = f.asked;
    replied = f.replied;
    closed = f.closed;
  }

  -- An answer that the chain returns is the reply of one of its paths, and afterwards that path has
  -- no failure counted and its circuit is closed.
  pub failover-FromChain :
      (deadline : Option ℕ) (chain : List Key) (last : Option Exn) (tried : Bool) (s : Circuits)
      (w : World) (a : Answer)
      → (failover env cfg deadline chain last tried s w).0 ≡ ok a
      → FromChain chain a (failover env cfg deadline chain last tried s w).1
  unfolding failover
  failover-FromChain deadline [] last tried s w a h = absurd (ground arith)
  failover-FromChain deadline (key ∷ rest) last tried s w a h =
      let pass = attempt env cfg deadline last key s w in
      (unfold failover in
        failover_cases (λ o. o.0 ≡ ok a → FromChain (key ∷ rest) a o.1) deadline key rest last tried
          s w (λ b e. λ same. answered b e (ground arith)) (λ f e. λ same. cc)
          (λ e. λ same.
            longer key rest a _ (failover-FromChain deadline rest last tried pass.1 pass.2 a same))
          (λ x e. λ same.
            longer key rest a _
              (failover-FromChain deadline rest (some x) true pass.1 pass.2 a same))
          h)
    where
      answered :
          (b : Answer)
          → (attempt env cfg deadline last key s w).0 ≡ returned b
          → b ≡ a
          → FromChain (key ∷ rest) a (attempt env cfg deadline last key s w).1
      answered b e same =
          let r = attempt-returned env cfg deadline last key s w b e in
          record {
            path = key;
            listed = ground (arith, ==_refl key);
            asked = r.before;
            replied = r.replied ∙ ap answer same;
            closed = rw r.cleared (cleared_path key s);
          }
