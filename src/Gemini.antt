-- ===== src/Gemini.antt =====
-- providers/gemini.py: the data of the Gemini backend, its error classifiers, and the ladder of
-- thinking levels. The SDK (google-genai) is a parameter.
pub mod Pool
pub mod Context
pub mod Calls
pub mod Ladder
pub mod Converge
pub mod Prepared
pub mod Reuse
use indic_rag.Base.{
  Bool, Eq, List, Option, String, Text, [], codes, contains, false, get_elem?, if◌then◌else◌,
  is_some, leb, length, mem, min, nat_beq, none, not, some, suc, true, zero, ℕ, ◌&&◌, ◌+◌, ◌-◌, ◌/◌,
  ◌==◌, ◌||◌, ◌∷◌, nat_eq, string_eq, pair_eq, list_eq,
}

-- `genai_types.ThinkingLevel`, where the SDK has it, and the methods of `str` that the file calls
pub record Sdk : Type 1 where
  pub Level : Type 0
  pub Tools : Type 0
  pub Rest : Type 0
  pub members : Option (String → Option Level)
  pub level_name : Level → String
  pub upper : String → String
  pub lower : Text → Text

-- an `int`
pub data Budget : Type 0 where
  negative : ℕ → Budget
  tokens : ℕ → Budget

-- What the file reads of an exception.
pub record ApiError : Type 0 where
  pub status_code : Option ℕ
  pub code : Option ℕ
  pub message : Text

-- `a or b` on optional numbers: zero is false
abbrev pub or_code : Option ℕ → Option ℕ → Option ℕ
or_code none b = b
or_code (some zero) b = b
or_code (some (suc n)) b = some (suc n)

abbrev pub status_of : ApiError → Option ℕ
status_of exc = or_code exc.status_code exc.code

abbrev pub is_code : ℕ → Option ℕ → Bool
is_code n none = false
is_code n (some m) = nat_beq m n

unfoldable pub is_transient : ApiError → Bool
is_transient exc =
    is_code 429 (status_of exc)
    || is_code 503 (status_of exc)
    || contains (codes "503") exc.message
    || contains (codes "429") exc.message
    || contains (codes "UNAVAILABLE") exc.message
    || contains (codes "RESOURCE_EXHAUSTED") exc.message

unfoldable pub is_permanent : ApiError → Bool
is_permanent exc =
    is_code 400 (status_of exc)
    || is_code 404 (status_of exc)
    || contains (codes "INVALID_ARGUMENT") exc.message

unfoldable pub is_invalid_argument : ApiError → Bool
is_invalid_argument exc =
    is_code 400 (status_of exc) || contains (codes "INVALID_ARGUMENT") exc.message

abbrev pub low_budget_ceiling : ℕ
low_budget_ceiling = 1024

abbrev pub level_ladder : List String
level_ladder = "MINIMAL" ∷ "LOW" ∷ "MEDIUM" ∷ "HIGH" ∷ []

-- The element behind the first occurrence of a name: `ladder[ladder.index(name) + 1]`, or nothing
-- where `index` or the subscript raises.
unfoldable pub next_after : String → List String → Option String
next_after name [] = none
next_after name (x ∷ ladder) = if x == name then get_elem? ladder 0 else next_after name ladder

-- What the class has learned of the models: `_zero_budget_rejected` and `_level_rejected`.
pub record Learned : Type 0 where
  pub zero_budget : List String
  pub levels : List (String × String)

-- `s.add(x)` on a set
abbrev pub add_to_set {ℓ} : {A : Type ℓ} ⦃e : Eq A⦄ → A → List A → List A
add_to_set x s = if mem x s then s else x ∷ s

module _ (sdk : Sdk) where
  open sdk use {Level, Tools, Rest, members, level_name, upper, lower}

  -- `ThinkingConfig`
  pub record Thinking : Type 0 where
    pub thinking_budget : Option Budget
    pub thinking_level : Option Level

  -- `GenerateContentConfig`; `rest` holds the fields that the backend never reads.
  pub record GenConfig : Type 0 where
    pub thinking_config : Option Thinking
    pub system_instruction : Option Text
    pub tools : Option Tools
    pub cached_content : Option String
    pub rest : Rest

  unfoldable pub supports_thinking : String → Bool
  supports_thinking model = not (contains (codes "gemma") (lower (codes model)))

  unfoldable pub level_of : String → Option Level
  level_of name = elim members [
    | none ↦ none
    | some enum ↦ if name == "" then none else enum (upper name)
  ]

  unfoldable pub level_for_budget : Option Budget → Option Level
  level_for_budget none = none
  level_for_budget (some (negative n)) = none
  level_for_budget (some (tokens zero)) = level_of "MINIMAL"
  level_for_budget (some (tokens (suc n))) =
      level_of (if leb (suc n) low_budget_ceiling then "LOW" else "MEDIUM")

  abbrev pub budget_in : Option Thinking → Option Budget
  budget_in none = none
  budget_in (some tc) = tc.thinking_budget

  unfoldable pub has_thinking_budget : GenConfig → Bool
  has_thinking_budget c = is_some (budget_in c.thinking_config)

  abbrev pub level_in : Option Thinking → Option Level
  level_in none = none
  level_in (some tc) = tc.thinking_level

  abbrev pub name_in : Option Level → Option String
  name_in none = none
  name_in (some level) = some (upper (level_name level))

  unfoldable pub current_level_name : GenConfig → Option String
  current_level_name c = name_in (level_in c.thinking_config)

  -- `model_copy(update={"thinking_config": None})`, and with a level alone
  abbrev pub drop_thinking : GenConfig → GenConfig
  drop_thinking c = record c { thinking_config = none }

  abbrev pub only_level : Level → Thinking
  only_level level = record { thinking_budget = none; thinking_level = some level }

  abbrev pub at_level : Option Level → GenConfig → GenConfig
  at_level none c = drop_thinking c
  at_level (some level) c = record c { thinking_config = some (only_level level) }

  -- `_escalate_level` for a config that has a level, by the name behind its own on the ladder
  abbrev pub climb : Option String → GenConfig → GenConfig
  climb none c = drop_thinking c
  climb (some name) c = at_level (level_of name) c

  unfoldable pub escalate_level : GenConfig → Option GenConfig
  unfolding current_level_name
  escalate_level c = elim (current_level_name c) [
    | none ↦ none
    | some name ↦ some (climb (next_after name level_ladder) c)
  ]

  -- The loop of `_skip_rejected_levels`, by the rounds that are left.
  unfoldable pub skip_levels : ℕ → String → Learned → GenConfig → GenConfig
  unfolding current_level_name
  skip_levels zero model l c = c
  skip_levels (suc rounds) model l c = elim (current_level_name c) [
    | none ↦ c
    | some name ↦
        if mem (model, name) l.levels
        then skip_levels rounds model l (climb (next_after name level_ladder) c)
        else c
  ]

  unfoldable pub skip_rejected_levels : String → Learned → GenConfig → GenConfig
  skip_rejected_levels = skip_levels (length level_ladder)

  -- what is learned, and whether the failure is the refusal of the level
  unfoldable pub remember_level_rejection : String → GenConfig → ApiError → Learned → Bool × Learned
  remember_level_rejection model c exc l = elim (current_level_name c) [
    | none ↦ (false, l)
    | some name ↦
        if name == "" || not (is_invalid_argument exc)
        then (false, l)
        else if not (contains (codes "thinking level") (lower exc.message))
        then (false, l)
        else (true, record l { levels = add_to_set (model, name) l.levels })
  ]

  unfoldable pub translate_thinking : GenConfig → GenConfig
  translate_thinking c = elim c.thinking_config [
    | none ↦ c
    | some tc ↦ at_level (level_for_budget tc.thinking_budget) c
  ]

  unfoldable pub remember_zero_budget_rejection :
      String → GenConfig → ApiError → Learned → Bool × Learned
  remember_zero_budget_rejection model c exc l =
      if not (has_thinking_budget c && is_invalid_argument exc)
      then (false, l)
      else (true, record l { zero_budget = add_to_set model l.zero_budget })

  unfoldable pub next_config : String → GenConfig → ApiError → Learned → Option GenConfig × Learned
  next_config model c exc l =
      let (budget, l1) = remember_zero_budget_rejection model c exc l in
      if budget
      then (some (translate_thinking c), l1)
      else (let (level, l2) = remember_level_rejection model c exc l1 in
          if level then (escalate_level c, l2) else (none, l2))
