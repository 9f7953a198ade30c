-- ===== src/Gemini/Prepared.antt =====
-- providers/gemini.py: what `_prep_config` leaves of a config, by what has been learned.
use indic_rag.Gemini.{
  Sdk, GenConfig, Learned, level_ladder, next_after, climb, drop_thinking, level_of,
  current_level_name, has_thinking_budget, supports_thinking, skip_levels, skip_rejected_levels,
  translate_thinking, level_for_budget,
}
use indic_rag.Gemini.Ladder.{
  rank_pos, IsNamed, IsUpper, rank_of, rank_of_le, rank-climb, has_thinking_budget-at_level,
}
use indic_rag.Gemini.Calls.{Network, State, settle_thinking, with_cache, prep_config}
use indic_rag.Base.{
  Bool, Bool-cases, Option, Option-cases, String, arith, false, inl, inr, is_empty, is_some, mem,
  none, not, refl, some, subst, suc, zero, ℕ, ◌&&◌, ◌≡◌, ◌≤◌, nat_eq, string_eq, pair_eq, list_eq,
}

-- the level is one that the model has refused
abbrev pub refused : String → Learned → Option String → Bool
refused model l none = false
refused model l (some name) = mem (model, name) l.levels

module _ (sdk : Sdk) where
  pub skip_levels-NotRefused :
      (rounds : ℕ) (model : String) (l : Learned) (c : GenConfig sdk)
      → IsNamed sdk
      → IsUpper sdk
      → rank_of (current_level_name sdk c) ≤ rounds
      → refused model l (current_level_name sdk (skip_levels sdk rounds model l c)) ≡ false
  unfolding skip_levels
  skip_levels-NotRefused zero model l c named up h =
      elim (Option-cases (current_level_name sdk c)) [
        | inl e ↦ ground (arith, e)
        | inr (name, e) ↦ absurd (ground (arith, e, rank_pos name))
      ]
  skip_levels-NotRefused (suc rounds) model l c named up h =
      elim (Option-cases (current_level_name sdk c)) [
        | inl e ↦ ground (arith, e)
        | inr (name, e) ↦
            (let next = climb sdk (next_after name level_ladder) c in
              let k = rank-climb sdk name c named up in
              ground (arith, e, k, skip_levels-NotRefused rounds model l next named up))
      ]

  pub has_thinking_budget-climb :
      (o : Option String) (c : GenConfig sdk) → has_thinking_budget sdk (climb sdk o c) ≡ false
  has_thinking_budget-climb none c = has_thinking_budget-at_level sdk none c
  has_thinking_budget-climb (some name) c = has_thinking_budget-at_level sdk (level_of sdk name) c

  pub skip_levels-budget :
      (rounds : ℕ) (model : String) (l : Learned) (c : GenConfig sdk)
      → has_thinking_budget sdk c ≡ false
      → has_thinking_budget sdk (skip_levels sdk rounds model l c) ≡ false
  unfolding skip_levels
  skip_levels-budget zero model l c h = h
  skip_levels-budget (suc rounds) model l c h = elim (Option-cases (current_level_name sdk c)) [
    | inl e ↦ ground (arith, e)
    | inr (name, e) ↦ ground (
      arith,
      e,
      skip_levels-budget rounds model l (climb sdk (next_after name level_ladder) c)
          (has_thinking_budget-climb (next_after name level_ladder) c),
    )
  ]

  -- What a prepared config has not: a thinking config where the model has no thinking, a budget where
  -- the model has refused one, a level that the model has refused.
  unfoldable pub IsAcceptable : String → Learned → GenConfig sdk → Type 0
  IsAcceptable model l c =
      ((not (supports_thinking sdk model) && is_some c.thinking_config) ≡ false)
      × ((mem model l.zero_budget && has_thinking_budget sdk c) ≡ false)
      × (refused model l (current_level_name sdk c) ≡ false)

  pub has_thinking_budget-translate :
      (c : GenConfig sdk) → has_thinking_budget sdk (translate_thinking sdk c) ≡ false
  unfolding translate_thinking has_thinking_budget
  has_thinking_budget-translate c = elim (Option-cases c.thinking_config) [
    | inl e ↦ rw (e) refl
    | inr (tc, e) ↦
        rw (e, translate_thinking)
          (has_thinking_budget-at_level sdk (level_for_budget sdk tc.thinking_budget) c)
  ]

  level_dropped : (c : GenConfig sdk) → current_level_name sdk (drop_thinking sdk c) ≡ none
  unfolding current_level_name
  level_dropped c = refl

  pub settle_thinking-IsAcceptable :
      (model : String) (l : Learned) (c : GenConfig sdk)
      → IsNamed sdk
      → IsUpper sdk
      → IsAcceptable model l (settle_thinking sdk model l c)
  unfolding settle_thinking IsAcceptable skip_rejected_levels
  settle_thinking-IsAcceptable model l c named up =
      let t = translate_thinking sdk c in
      let kept =
        skip_levels-NotRefused 4 model l c named up (rank_of_le sdk (current_level_name sdk c)) in
      let translated =
        skip_levels-NotRefused 4 model l t named up (rank_of_le sdk (current_level_name sdk t)) in
      let none_left = skip_levels-budget 4 model l t (has_thinking_budget-translate c) in
      let none_there = skip_levels-budget 4 model l c in
      let dropped = has_thinking_budget-at_level sdk none c in
      let no_level = level_dropped c in
      elim (Bool-cases (supports_thinking sdk model)) [
        | inr e ↦ ground (arith, e, dropped, no_level)
        | inl e ↦ elim (Bool-cases (mem model l.zero_budget && has_thinking_budget sdk c)) [
          | inl f ↦ ground (arith, e, f, translated, none_left)
          | inr f ↦ ground (arith, e, f, kept, none_there)
        ]
      ]

module _ (sdk : Sdk) (net : Network sdk) where
  pub learned-with_cache :
      (client : ℕ) (model : String) (c : GenConfig sdk) (s : State sdk net)
      → (with_cache sdk net client model c s).1.learned ≡ s.learned
  unfolding with_cache
  learned-with_cache client model c s = elim (Option-cases c.system_instruction) [
    | inl e ↦ rw (e, with_cache) refl
    | inr (text, e) ↦ elim (Bool-cases (is_empty text)) [
      | inl f ↦ rw (e, with_cache, f) refl
      | inr f ↦ rw (e, with_cache, f) refl
    ]
  ]

  -- The config that `_prep_config` hands to the first call carries no thinking config where the model
  -- is a gemma model, no thinking budget where the model is known to refuse one, and no level that
  -- the model is known to refuse, whatever has been learned and whatever the context cache answers
  -- (with an SDK whose levels carry their names).
  pub prep_config-IsAcceptable :
      (client : ℕ) (model : String) (c : GenConfig sdk) (s : State sdk net)
      → IsNamed sdk
      → IsUpper sdk
      → IsAcceptable sdk model s.learned (prep_config sdk net client model c s).0
  unfolding prep_config
  prep_config-IsAcceptable client model c s named up =
      subst (λ l. IsAcceptable sdk model l (prep_config sdk net client model c s).0)
        (learned-with_cache client model c s)
        (settle_thinking-IsAcceptable sdk model (with_cache sdk net client model c s).1.learned
          (with_cache sdk net client model c s).0 named up)
