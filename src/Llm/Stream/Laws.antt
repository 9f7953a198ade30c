-- ===== src/Llm/Stream/Laws.antt =====
-- llm_client.py: where the chunks of a stream come from.
use indic_rag.Llm.Circuits.{Key, Circuits}
use indic_rag.Llm.Routing.{Config}
use indic_rag.Llm.Failover.{Env, Failure, backend_error, too_late, is_blocked}
use indic_rag.Llm.Stream.{
  StreamPass, finished, broken, stopped, skipped, failed, settle, call_stream, stream_attempt,
  stream_failover,
}
use indic_rag.Base.{
  ==_refl, Bool, List, Option, [], arith, mem, none, refl, some, true, ℕ, ◌∷◌, ◌≡◌, ◌≢◌, nat_eq,
  string_eq, pair_eq,
}

module _ (env : Env) (cfg : Config) where
  open env use {World, Chunk, Exn, clock, stream, is_permanent}

  abbrev pub raised_by : Option Exn → Option (Failure Exn)
  raised_by none = none
  raised_by (some exc) = some (backend_error exc)

  -- The chunks and the failure are those of one call of one path of the chain.
  pub record FromOne (chain : List Key) (chunks : List Chunk) (failure : Option (Failure Exn))
      : Type 0 where
    pub path : Key
    pub listed : mem path chain ≡ true
    pub asked : World
    pub ended : Option Exn
    pub streamed : ((stream path asked).0 ≡ chunks) × ((stream path asked).1 ≡ ended)
    pub raised_on : failure ≡ raised_by ended

  longer :
      (key : Key) (rest : List Key) (chunks : List Chunk) (failure : Option (Failure Exn))
      → FromOne rest chunks failure
      → FromOne (key ∷ rest) chunks failure
  longer key rest chunks failure f = record {
    path = f.path;
    listed = ground (arith, f.listed);
    asked = f.asked;
    ended = f.ended;
    streamed = f.streamed;
    raised_on = f.raised_on;
  }

  pass_world : Option ℕ → Key → Circuits → World → World
  pass_world deadline key s w = (is_blocked env cfg key s (too_late env cfg deadline w).1).1

  finished_reads :
      (deadline : Option ℕ) (last : Option Exn) (key : Key) (s : Circuits) (w : World)
      (chunks : List Chunk)
      → (stream_attempt env cfg deadline last key s w).0 ≡ finished chunks
      → ((stream key (pass_world deadline key s w)).0 ≡ chunks)
        × ((stream key (pass_world deadline key s w)).1 ≡ none)
  unfolding stream_attempt call_stream settle pass_world
  finished_reads deadline last key s w chunks h = ground arith

  broken_reads :
      (deadline : Option ℕ) (last : Option Exn) (key : Key) (s : Circuits) (w : World)
      (chunk : Chunk) (chunks : List Chunk) (exc : Exn)
      → (stream_attempt env cfg deadline last key s w).0 ≡ broken chunk chunks exc
      → ((stream key (pass_world deadline key s w)).0 ≡ chunk ∷ chunks)
        × ((stream key (pass_world deadline key s w)).1 ≡ some exc)
  unfolding stream_attempt call_stream settle pass_world
  broken_reads deadline last key s w chunk chunks exc h = ground arith

  -- Whatever a stream yields is the whole output of one call of one path of the chain, and what is
  -- raised behind a chunk is the exception of that call: no second model continues an answer.
  pub stream-FromOne :
      (deadline : Option ℕ) (chain : List Key) (last : Option Exn) (tried : Bool) (s : Circuits)
      (w : World)
      → (let out = stream_failover env cfg deadline chain last tried s w in
          out.0 ≢ [] → FromOne chain out.0 out.1)
  unfolding stream_failover
  stream-FromOne deadline [] last tried s w h = absurd (h refl)
  stream-FromOne deadline (key ∷ rest) last tried s w h =
      by_pass (stream_attempt env cfg deadline last key s w).0 refl
        (stream-FromOne deadline rest last tried after later)
        (λ x. stream-FromOne deadline rest (some x) true after later) h
    where
      after : Circuits
      after = (stream_attempt env cfg deadline last key s w).1

      later : World
      later = (stream_attempt env cfg deadline last key s w).2

      by_pass :
          (p : StreamPass Chunk Exn)
          → (stream_attempt env cfg deadline last key s w).0 ≡ p
          → (let out = stream_failover env cfg deadline rest last tried after later in
              out.0 ≢ [] → FromOne rest out.0 out.1)
          → ((x : Exn)
              → (let out = stream_failover env cfg deadline rest (some x) true after later in
                  out.0 ≢ [] → FromOne rest out.0 out.1))
          → (let out = stream_failover env cfg deadline (key ∷ rest) last tried s w in
              out.0 ≢ [] → FromOne (key ∷ rest) out.0 out.1)
      by_pass (finished chunks) e _ _ =
          rw (e, stream_failover)
            (λ _. record {
              path = key;
              listed = ground (arith, ==_refl key);
              asked = pass_world deadline key s w;
              ended = none;
              streamed = finished_reads deadline last key s w chunks e;
              raised_on = refl;
            })
      by_pass (broken chunk chunks exc) e _ _ =
          rw (e, stream_failover)
            (λ _. record {
              path = key;
              listed = ground (arith, ==_refl key);
              asked = pass_world deadline key s w;
              ended = some exc;
              streamed = broken_reads deadline last key s w chunk chunks exc e;
              raised_on = refl;
            })
      by_pass (stopped f) e _ _ = rw (e, stream_failover) (λ h. absurd (h refl))
      by_pass skipped e on_skip _ = rw (e, stream_failover) (λ h. longer key rest _ _ (on_skip h))
      by_pass (failed x) e _ on_fail =
          rw (e, stream_failover) (λ h. longer key rest _ _ (on_fail x h))
