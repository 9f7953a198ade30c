-- ===== src/Gemini/Ladder.antt =====
-- providers/gemini.py: how far the ladder of thinking levels still reaches from a config.
use indic_rag.Gemini.{
  Sdk, GenConfig, ApiError, Learned, level_ladder, level_of, level_for_budget, low_budget_ceiling,
  Budget, negative, tokens, drop_thinking, current_level_name, has_thinking_budget, climb, at_level,
  next_after, escalate_level, translate_thinking, next_config, remember_level_rejection,
  remember_zero_budget_rejection,
}
use indic_rag.Base.{
  All, Bool-cases, List, Option, Option-cases, String, [], arith, false, if◌then◌else◌, inl, inr,
  leb, length, none, refl, some, suc, zero, ℕ, ◌+◌, ◌==◌, ◌∷◌, ◌≡◌, ◌≤◌, nat_eq, string_eq, pair_eq,
  list_eq,
}

-- the refusals that are still possible from a level
unfoldable pub rank : String → List String → ℕ
rank name [] = 1
rank name (x ∷ ladder) = if x == name then suc (length ladder) else rank name ladder

pub rank_pos : (name : String) → 1 ≤ rank name level_ladder
unfolding rank
rank_pos name = ground arith

abbrev pub rank_of : Option String → ℕ
rank_of none = 0
rank_of (some name) = rank name level_ladder

module _ (sdk : Sdk) where
  -- The SDK's enum hands out a member whose name is the one that was asked for.
  unfoldable pub IsNamed : Type 0
  IsNamed =
      (enum : String → Option sdk.Level) (name : String) (level : sdk.Level)
      → sdk.members ≡ some enum
      → enum name ≡ some level
      → sdk.level_name level ≡ name

  -- `upper` leaves the four names as they are.
  unfoldable pub IsUpper : Type 0
  IsUpper = All (λ name. sdk.upper name ≡ name) level_ladder

  -- the refusals that are still possible from a config
  unfoldable pub refusals : GenConfig sdk → ℕ
  refusals c = if has_thinking_budget sdk c then 5 else rank_of (current_level_name sdk c)

  -- A level that is asked for by name carries the name.
  pub name-level_of :
      (name : String) (level : sdk.Level)
      → IsNamed
      → sdk.upper name ≡ name
      → level_of sdk name ≡ some level
      → sdk.upper (sdk.level_name level) ≡ name
  unfolding level_of IsNamed
  name-level_of name level named up h = elim (Option-cases sdk.members) [
    | inl e ↦ absurd (ground (arith, e))
    | inr (enum, e) ↦ (let k = named enum name level e in ground (arith, e, k))
  ]

  pub rank-level_of :
      (name : String) (c : GenConfig sdk)
      → IsNamed
      → sdk.upper name ≡ name
      → rank_of (current_level_name sdk (at_level sdk (level_of sdk name) c))
        ≤ rank name level_ladder
  unfolding current_level_name
  rank-level_of name c named up = elim (Option-cases (level_of sdk name)) [
    | inl e ↦ rw (e) (omega arith)
    | inr (level, e) ↦ rw (e, name-level_of name level named up e) (omega arith)
  ]

  pub has_thinking_budget-at_level :
      (o : Option sdk.Level) (c : GenConfig sdk)
      → has_thinking_budget sdk (at_level sdk o c) ≡ false
  unfolding has_thinking_budget
  has_thinking_budget-at_level none c = refl
  has_thinking_budget-at_level (some level) c = refl

  -- One step up the ladder leaves one refusal less.
  pub rank-climb :
      (name : String) (c : GenConfig sdk)
      → IsNamed
      → IsUpper
      → rank_of (current_level_name sdk (climb sdk (next_after name level_ladder) c)) + 1
        ≤ rank name level_ladder
  unfolding next_after IsUpper rank current_level_name
  rank-climb name c named up =
      (let low = rank-level_of "LOW" c named up.1.0 in
        let medium = rank-level_of "MEDIUM" c named up.1.1.0 in
        let high = rank-level_of "HIGH" c named up.1.1.1.0 in ground (arith, low, medium, high))

  pub refusals_none : (c : GenConfig sdk) → refusals (drop_thinking sdk c) ≡ 0
  unfolding refusals has_thinking_budget current_level_name
  refusals_none c = refl

  -- `refusals` of a config behind a step.
  pub refusals-at_level :
      (o : Option sdk.Level) (c : GenConfig sdk)
      → refusals (at_level sdk o c) ≡ rank_of (current_level_name sdk (at_level sdk o c))
  unfolding refusals
  refusals-at_level o c = ground (arith, has_thinking_budget-at_level o c)

  pub refusals-climb :
      (o : Option String) (c : GenConfig sdk)
      → refusals (climb sdk o c) ≡ rank_of (current_level_name sdk (climb sdk o c))
  refusals-climb none c = refusals-at_level none c
  refusals-climb (some name) c = refusals-at_level (level_of sdk name) c

  pub refusals-level_of :
      (name : String) (c : GenConfig sdk)
      → IsNamed
      → sdk.upper name ≡ name
      → refusals (at_level sdk (level_of sdk name) c) ≤ rank name level_ladder
  refusals-level_of name c named up =
      ground (arith, refusals-at_level (level_of sdk name) c, rank-level_of name c named up)

  pub refusals-level_for_budget :
      (o : Option Budget) (c : GenConfig sdk)
      → IsNamed
      → IsUpper
      → refusals (at_level sdk (level_for_budget sdk o) c) ≤ 4
  unfolding level_for_budget IsUpper rank
  refusals-level_for_budget none c named up =
      ground (arith, refusals-at_level none c, refusals_none c)
  refusals-level_for_budget (some (negative n)) c named up =
      ground (arith, refusals-at_level none c, refusals_none c)
  refusals-level_for_budget (some (tokens zero)) c named up =
      refusals-level_of "MINIMAL" c named up.0
  refusals-level_for_budget (some (tokens (suc n))) c named up =
      elim (Bool-cases (leb (suc n) low_budget_ceiling)) [
        | inl e ↦ (let k = refusals-level_of "LOW" c named up.1.0 in rw (e) (omega (arith, k)))
        | inr e ↦ (let k = refusals-level_of "MEDIUM" c named up.1.1.0 in rw (e) (omega (arith, k)))
      ]

  -- A config with a budget that is translated can be refused four times at most.
  pub refusals-translate :
      (c : GenConfig sdk) → IsNamed → IsUpper → refusals (translate_thinking sdk c) ≤ 4
  unfolding translate_thinking
  refusals-translate c named up = elim (Option-cases c.thinking_config) [
    | inl e ↦ rw (e) (omega (arith, refusals_none c))
    | inr (tc, e) ↦ rw (e) (
        refusals-level_for_budget tc.thinking_budget (record c { thinking_config = some tc }) named
          up)
  ]

  pub rank_of_le : (o : Option String) → rank_of o ≤ 4
  unfolding rank
  rank_of_le none = omega arith
  rank_of_le (some name) = ground arith

  pub refusals-escalate_level :
      (c next : GenConfig sdk)
      → IsNamed
      → IsUpper
      → escalate_level sdk c ≡ some next
      → refusals next + 1 ≤ rank_of (current_level_name sdk c)
  unfolding escalate_level
  refusals-escalate_level c next named up h = elim (Option-cases (current_level_name sdk c)) [
    | inl e ↦ absurd (ground (arith, e))
    | inr (name, e) ↦
        (let k = rank-climb name c named up in
          let m = refusals-climb (next_after name level_ladder) c in ground (arith, e, k, m))
  ]

  -- A config that is tried again can be refused less often than the one before it.
  pub refusals-next_config :
      (model : String) (c : GenConfig sdk) (exc : ApiError) (l : Learned) (next : GenConfig sdk)
      → IsNamed
      → IsUpper
      → (next_config sdk model c exc l).0 ≡ some next
      → refusals next + 1 ≤ refusals c
  unfolding next_config remember_zero_budget_rejection remember_level_rejection refusals
  refusals-next_config model c exc l next named up h = ground (
    arith,
    refusals-translate c named up,
    refusals-escalate_level c next named up,
    rank_of_le (current_level_name sdk c),
  )
