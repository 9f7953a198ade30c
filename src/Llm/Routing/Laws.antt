-- ===== src/Llm/Routing/Laws.antt =====
-- llm_client.py: what the failover chain of a request consists of.

use indic_rag.Llm.Routing.{
  Config, non_empty, split_model, resolve_provider, first_openrouter, fallback_model_for,
  ordered_attempts, same_provider, cross_provider, has_gemini, backstop, attempts,
}
use indic_rag.Base.{
  ==_iff, ==_refl, Bool, List, String, [], any, ap, arith, false, if◌then◌else◌, is_some, mem, none,
  not, refl, true, ◌&&◌, ◌++◌, ◌==◌, ◌||◌, ◌∙◌, ◌∷◌, ◌≡◌, nat_eq, string_eq, pair_eq,
}

any-append {ℓ} :
    {A : Type ℓ} (p : A → Bool) (xs ys : List A) → any p (xs ++ ys) ≡ (any p xs || any p ys)
any-append p [] ys = refl
any-append p (x ∷ xs) ys = ground (arith, any-append p xs ys)

module _ (cfg : Config) where
  -- a provider that the order may name: gemini, or one that is configured, and with a model
  unfoldable pub usable : String → Bool
  usable prov =
      non_empty (fallback_model_for cfg prov)
      && (prov == "gemini" || is_some (cfg.provider_settings prov))

  -- what one entry of the order adds
  ordered_attempts_step :
      (provider prov : String) (order : List String)
      → ordered_attempts cfg provider (prov ∷ order) ≡ (
          if usable prov && not (prov == provider)
          then (prov, fallback_model_for cfg prov) ∷ ordered_attempts cfg provider order
          else ordered_attempts cfg provider order)
  unfolding ordered_attempts usable
  ordered_attempts_step provider prov order = ground arith

  any-if :
      (b : Bool) (q prov model : String) (rest : List (String × String))
      → any (λ a. a.0 == q) (if b then (prov, model) ∷ rest else rest)
        ≡ (b && prov == q || any (λ a. a.0 == q) rest)
  any-if true q prov model rest = refl
  any-if false q prov model rest = refl

  chosen_or : (b c m u : Bool) → (b ≡ true → c ≡ u) → (c && b || m && u) ≡ ((b || m) && u)
  chosen_or true c m u h = ground (arith, h refl)
  chosen_or false c m u h = ground arith

  -- Of a preference order, exactly the usable providers other than the requested one are tried.
  pub any-ordered_attempts :
      (provider q : String) (order : List String)
      → any (λ a. a.0 == q) (ordered_attempts cfg provider order)
        ≡ (mem q order && (usable q && not (q == provider)))
  any-ordered_attempts provider q [] = unfold ordered_attempts in refl
  any-ordered_attempts provider q (prov ∷ order) =
      ap (any (λ a. a.0 == q)) (ordered_attempts_step provider prov order)
      ∙ any-if (usable prov && not (prov == provider)) q prov (fallback_model_for cfg prov)
          (ordered_attempts cfg provider order)
      ∙ ap (λ b. (usable prov && not (prov == provider)) && prov == q || b)
          (any-ordered_attempts provider q order)
      ∙ chosen_or (prov == q) (usable prov && not (prov == provider)) (mem q order)
          (usable q && not (q == provider))
          (λ same. ap (λ p. usable p && not (p == provider)) ((==_iff prov q).0 same))

  -- With no preference order and a Gemini model at hand, the chain reaches Gemini.
  pub attempts_backstop :
      (requested provider : String)
      → cfg.provider_order ≡ []
      → non_empty (fallback_model_for cfg "gemini") ≡ true
      → has_gemini cfg (attempts cfg requested provider) ≡ true
  unfolding attempts backstop
  attempts_backstop requested provider h g =
      let model = (split_model cfg requested).1 in
      let chain = same_provider cfg provider model ++ cross_provider cfg provider in
      ground (
        arith,
        any-append (λ a. a.0 == "gemini") chain (("gemini", fallback_model_for cfg "gemini") ∷ []),
        let g : String = "gemini" in ==_refl g,
      )

  -- If the selectable models hold one that OpenRouter runs, the fallback for OpenRouter is one.
  pub first_openrouter_runs :
      (models : List String)
      → any (λ m. resolve_provider cfg m none == "openrouter") models ≡ true
      → resolve_provider cfg (first_openrouter cfg models) none ≡ "openrouter"
  unfolding first_openrouter
  first_openrouter_runs [] h = cc
  first_openrouter_runs (m ∷ models) h =
      ground
        (arith, first_openrouter_runs models, ==_iff (resolve_provider cfg m none) "openrouter")
