-- ===== src/Gemini/Converge.antt =====
-- providers/gemini.py: how the two retry loops end.
use indic_rag.Gemini.{Sdk, GenConfig, ApiError, next_config, current_level_name}
use indic_rag.Gemini.Ladder.{IsNamed, IsUpper, refusals, refusals-next_config, rank_of_le}
use indic_rag.Gemini.Calls.{
  Network, State, GeminiError, api_error, not_converged, no_text, generate_rounds, generate,
  prep_config, stream_rounds, generate_stream, texts_of, iter_texts, end_stream, StreamChunk,
  Streamed,
}
use indic_rag.Base.{
  Bool, List, Option, Option-cases, String, Text, [], arith, false, inl, inr, is_empty, is_some,
  none, not, refl, some, suc, true, zero, ℕ, ◌+◌, ◌||◌, ◌∷◌, ◌≡◌, ◌≤◌, ◌⊎◌,
}

-- The error is the one of a loop that has run out of rounds.
abbrev pub is_not_converged : GeminiError → Bool
is_not_converged not_converged = true
is_not_converged (api_error exc) = false
is_not_converged no_text = false

abbrev pub stream_gave_up : Option GeminiError → Bool
stream_gave_up none = false
stream_gave_up (some e) = is_not_converged e

pub Answer-cases {ℓ κ} :
    {A : Type ℓ} {B : Type κ} (a : A ⊎ B) → ((r : A) × (a ≡ inl r)) ⊎ ((x : B) × (a ≡ inr x))
Answer-cases (inl r) = inl (r, refl)
Answer-cases (inr x) = inr (x, refl)

module _ (sdk : Sdk) (net : Network sdk) where
  pub refusals_le : (c : GenConfig sdk) → refusals sdk c ≤ 5
  unfolding refusals
  refusals_le c = ground (arith, rank_of_le sdk (current_level_name sdk c))

  -- a call's response, or its exception, as `generate` hands it on
  abbrev pub handed_on : net.Response ⊎ ApiError → net.Response ⊎ GeminiError
  handed_on (inl response) = inl response
  handed_on (inr exc) = inr (api_error exc)

  -- What `generate` ends with is what one call has given, and no call was made behind that one: the
  -- world is as that call has left it.
  abbrev pub IsLastCall : ℕ → String → (net.Response ⊎ GeminiError) × State sdk net → Type 0
  IsLastCall client model r =
      (c : GenConfig sdk) × (w : net.service.World) × (r.0
        ≡ handed_on (net.generate_content client model c w).0)
      × (r.1.world ≡ (net.generate_content client model c w).1)

  pub generate_rounds-IsLastCall :
      (rounds client : ℕ) (model : String) (c : GenConfig sdk) (s : State sdk net)
      → IsNamed sdk
      → IsUpper sdk
      → refusals sdk c + 1 ≤ rounds
      → IsLastCall client model (generate_rounds sdk net rounds client model c s)
  unfolding generate_rounds
  generate_rounds-IsLastCall zero client model c s named up h = absurd (omega arith)
  generate_rounds-IsLastCall (suc rounds) client model c s named up h =
      elim (Answer-cases (net.generate_content client model c s.world).0) [
        | inl (r, e) ↦ rw (e, generate_rounds) (c, s.world, rw (e, handed_on) refl, refl)
        | inr (exc, e) ↦ elim (Option-cases (next_config sdk model c exc s.learned).0) [
          | inl n ↦ rw (e, n, generate_rounds) (c, s.world, rw (e, handed_on) refl, refl)
          | inr (next, n) ↦
              rw (e, n, generate_rounds)
                (generate_rounds-IsLastCall rounds client model next _ named up (
                  omega (arith, refusals-next_config sdk model c exc s.learned next named up n, h)))
        ]
      ]

  -- what a pass through the loop yields
  abbrev pub pass_texts : List StreamChunk × Option ApiError × net.service.World → List Text
  pass_texts (chunks, none, w) = iter_texts chunks
  pass_texts (chunks, some exc, w) = texts_of chunks

  -- The texts are those of one call, and not empty at a normal end; the loop has not given up.
  unfoldable pub IsSound : ℕ → String → Streamed sdk net → Type 0
  IsSound client model r =
      (stream_gave_up r.1 ≡ false)
      × ((is_some r.1 || not (is_empty r.0)) ≡ true)
      × ((c : GenConfig sdk) × (w : net.service.World) × (pass_texts
              (net.generate_content_stream client model c w)
            ≡ r.0))

  pub end_stream-IsSound :
      (client : ℕ) (model : String) (c : GenConfig sdk) (w : net.service.World) (s : State sdk net)
      (texts : List Text)
      → pass_texts (net.generate_content_stream client model c w) ≡ texts
      → IsSound client model (end_stream sdk net texts s)
  unfolding IsSound
  end_stream-IsSound client model c w s [] e = (refl, refl, (c, w, e))
  end_stream-IsSound client model c w s (x ∷ xs) e = (refl, refl, (c, w, e))

  pub stream_rounds-IsSound :
      (rounds client : ℕ) (model : String) (c : GenConfig sdk) (s : State sdk net)
      → IsNamed sdk
      → IsUpper sdk
      → refusals sdk c + 1 ≤ rounds
      → IsSound client model (stream_rounds sdk net rounds client model c s)
  unfolding stream_rounds IsSound
  stream_rounds-IsSound zero client model c s named up h = absurd (omega arith)
  stream_rounds-IsSound (suc rounds) client model c s named up h =
      go
        (λ next t exc n.
          stream_rounds-IsSound rounds client model next t named up
            (omega (arith, refusals-next_config sdk model c exc s.learned next named up n, h)))
        (net.generate_content_stream client model c s.world).1 refl
    where
      Again : Type 0
      Again =
          (next : GenConfig sdk) (t : State sdk net) (exc : ApiError)
          → (next_config sdk model c exc s.learned).0 ≡ some next
          → IsSound client model (stream_rounds sdk net rounds client model next t)

      failed_pass :
          Again
          → (exc : ApiError) → (net.generate_content_stream client model c s.world).1 ≡ some exc
          → (texts : List Text)
          → texts_of (net.generate_content_stream client model c s.world).0 ≡ texts
          → IsSound client model (stream_rounds sdk net (suc rounds) client model c s)
      failed_pass again exc e (x ∷ xs) t =
          rw (e, stream_rounds, t) (refl, refl, (c, s.world, rw (e, pass_texts) t))
      failed_pass again exc e [] t = elim (Option-cases (next_config sdk model c exc s.learned).0) [
        | inl n ↦ rw (e, stream_rounds, t, n) (refl, refl, (c, s.world, rw (e, pass_texts) t))
        | inr (next, n) ↦ rw (e, stream_rounds, t, n) (again next _ exc n)
      ]

      go :
          Again
          → (o : Option ApiError) → (net.generate_content_stream client model c s.world).1 ≡ o
          → IsSound client model (stream_rounds sdk net (suc rounds) client model c s)
      go again none e =
          rw (e, stream_rounds)
            (end_stream-IsSound client model c s.world _
              (iter_texts (net.generate_content_stream client model c s.world).0)
              (rw (e, pass_texts) refl))
      go again (some exc) e =
          failed_pass again exc e (texts_of (net.generate_content_stream client model c s.world).0)
            refl

  -- `generate` returns the response of its last call or raises the exception of its last call (the
  -- world is the one behind that call): with an SDK whose levels carry their names in upper case, the
  -- rounds of the retry loop are enough for every config, every client and whatever has been learned,
  -- so that it never ends in "retries did not converge".
  pub generate_converges :
      (client : ℕ) (model : String) (c : GenConfig sdk) (s : State sdk net)
      → IsNamed sdk
      → IsUpper sdk
      → IsLastCall client model (generate sdk net client model c s)
  unfolding generate
  generate_converges client model c s named up =
      generate_rounds-IsLastCall 6 client model (prep_config sdk net client model c s).0
        (prep_config sdk net client model c s).1 named up
        (omega (arith, refusals_le (prep_config sdk net client model c s).0))

  -- `generate_stream`, read to its end, yields the texts of exactly one call of the client (behind
  -- the last one comes the truncation note, if that call ended normally at the output limit):
  -- a retry never repeats the opening of an answer. If nothing is raised behind them, there is at
  -- least one text. With an SDK whose levels carry their names the loop never ends in "retries did
  -- not converge".
  pub generate_stream-IsSound :
      (client : ℕ) (model : String) (c : GenConfig sdk) (s : State sdk net)
      → IsNamed sdk
      → IsUpper sdk
      → IsSound client model (generate_stream sdk net client model c s)
  unfolding generate_stream
  generate_stream-IsSound client model c s named up =
      stream_rounds-IsSound 6 client model (prep_config sdk net client model c s).0
        (prep_config sdk net client model c s).1 named up
        (omega (arith, refusals_le (prep_config sdk net client model c s).0))
