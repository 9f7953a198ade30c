-- ===== src/Llm/Routing.antt =====
-- llm_client.py: which provider runs a model, and the ordered paths of one request. The values of
-- config.py are read from the environment and are the fields of `Config`.
pub mod Laws
use Prim.Native.Char.{code}
use indic_rag.Base.{
  Bool, List, Option, String, [], any, false, if◌then◌else◌, is_some, min, none, not, or_else, some,
  true, ℕ, ◌&&◌, ◌++◌, ◌+◌, ◌-◌, ◌/◌, ◌==◌, ◌||◌, ◌∷◌, nat_eq, string_eq, pair_eq,
}

pub record Config : Type 0 where
  -- os.getenv("LLM_GEMINI_MODEL"), stripped
  pub gemini_model : String
  pub model_name : String
  pub fallback_model : String
  pub provider_order : List String
  pub fallback_provider : String
  pub selectable_models : List String
  -- `provider_settings(name)`, by its `model`; `none` means that the provider cannot be used
  pub provider_settings : String → Option String
  -- `name in _backends`
  pub in_backends : String → Bool
  pub min_attempt : ℕ

-- `model.partition(":")`: the head, whether there is a colon, and the rest
unfoldable pub partition_colon : String → String × Bool × String
partition_colon String.[] = (String.[], false, String.[])
partition_colon (String.◌∷◌ c s) =
    if code c == b':'
    then (String.[], true, s)
    else (String.◌∷◌ c (partition_colon s).0, (partition_colon s).1, (partition_colon s).2)

unfoldable pub has_slash : String → Bool
has_slash String.[] = false
has_slash (String.◌∷◌ c s) = code c == b'/' || has_slash s

-- the truth of a text
abbrev pub non_empty : String → Bool
non_empty s = not (s == "")

module _ (cfg : Config) where
  open cfg use {
    gemini_model, model_name, fallback_model, provider_order, fallback_provider, selectable_models,
    provider_settings, in_backends,
  }

  unfoldable pub split_model : String → Option String × String
  unfolding partition_colon has_slash
  split_model model =
      let (head, sep, rest) = partition_colon model in
      if sep
        && non_empty rest
        && not (has_slash head)
        && (head == "gemini" || in_backends head || is_some (provider_settings head))
      then (some head, rest)
      else (none, model)

  -- an explicit provider `""` is no provider
  unfoldable pub infer_provider : String → String
  infer_provider model = elim (split_model model).0 [
    | some prefixed ↦
        if non_empty prefixed then prefixed else if has_slash model then "openrouter" else "gemini"
    | none ↦ if has_slash model then "openrouter" else "gemini"
  ]

  unfoldable pub resolve_provider : String → Option String → String
  resolve_provider model none = infer_provider model
  resolve_provider model (some provider) =
      if non_empty provider then provider else infer_provider model

  -- the first selectable model that OpenRouter runs
  unfoldable pub first_openrouter : List String → String
  first_openrouter [] = model_name
  first_openrouter (model ∷ models) =
      if resolve_provider model none == "openrouter" then model else first_openrouter models

  unfoldable pub gemini_fallback : String
  gemini_fallback =
      if non_empty gemini_model then gemini_model else elim (split_model model_name).0 [
        | none ↦ model_name
        | some prefixed ↦ if prefixed == "gemini" then model_name else fallback_model
      ]

  unfoldable pub fallback_model_for : String → String
  fallback_model_for provider =
      if provider == "gemini"
      then gemini_fallback
      else if non_empty (or_else (provider_settings provider) "")
      then or_else (provider_settings provider) ""
      else if provider == "openrouter"
      then first_openrouter selectable_models
      else ""

  -- the loop over LLM_PROVIDER_ORDER
  unfoldable pub ordered_attempts : String → List String → List (String × String)
  ordered_attempts provider [] = []
  ordered_attempts provider (prov ∷ order) =
      if prov == provider || not (non_empty (fallback_model_for prov))
      then ordered_attempts provider order
      else if not (prov == "gemini") && not (is_some (provider_settings prov))
      then ordered_attempts provider order
      else (prov, fallback_model_for prov) ∷ ordered_attempts provider order

  unfoldable pub same_provider : String → String → List (String × String)
  same_provider provider model =
      if provider == "gemini" && non_empty fallback_model && not (fallback_model == model)
      then (provider, model) ∷ (provider, fallback_model) ∷ []
      else (provider, model) ∷ []

  unfoldable pub cross_provider : String → List (String × String)
  cross_provider provider =
      if non_empty fallback_provider && not (fallback_provider == provider)
      then (fallback_provider, fallback_model_for fallback_provider) ∷ []
      else []

  abbrev pub has_gemini : List (String × String) → Bool
  has_gemini attempts = any (λ a. a.0 == "gemini") attempts

  unfoldable pub backstop : List (String × String) → List (String × String)
  backstop attempts =
      if non_empty (fallback_model_for "gemini") && not (has_gemini attempts)
      then attempts ++ ("gemini", fallback_model_for "gemini") ∷ []
      else attempts

  -- `_attempts`
  unfoldable pub attempts : String → String → List (String × String)
  attempts requested provider =
      let model = (split_model requested).1 in
      elim provider_order [
        | [] ↦ backstop (same_provider provider model ++ cross_provider provider)
        | prov ∷ order ↦ same_provider provider model ++ ordered_attempts provider (prov ∷ order)
      ]
