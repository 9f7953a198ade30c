-- ===== src/Agent/Reflexion.antt =====
-- agent/nodes/reflexion_evaluator.py: how a draft is judged, and when the loop stops.
pub mod Laws
use indic_rag.Agent.{
  Aspect, as_text, as_other, Missing, listed, falsy, not_iterable, Float, Feedback, Passage,
  AgentState, max_reflexion, truthy,
}
use indic_rag.Base.{
  Bool, List, Option, String, Text, [], ap, codes, false, if◌then◌else◌, is_empty, last?, leb,
  length, ltb, max, mem, none, not, or_else, or_text, refl, some, suc, true, ℕ, ◌&&◌, ◌*◌, ◌++◌,
  ◌+◌, ◌-◌, ◌/◌, ◌==◌, ◌>>=◌, ◌||◌, ◌∷◌, nat_eq, string_eq, pair_eq, list_eq,
}

-- config.py; times in nanoseconds, thresholds as floats
pub record Limits (F : Type 0) : Type 0 where
  pub agent_timeout : ℕ
  pub eval_reserve : ℕ
  pub reflexion_budget : ℕ
  pub faithfulness_accept : F
  pub completeness_accept : F

-- What the evaluator reads from the parsed verdict, a key that is absent as `none`; an action that is
-- not a text is left out.
pub record Verdict (F : Type 0) : Type 0 where
  pub completeness : Option F
  pub action : Option String
  pub missing : Option Missing

-- What happens outside during one evaluation: the readings of the clock, the `grounded` flags of
-- `verify.check_claims` (`none`: it raised) and the model's verdict (`none`: the call or the
-- parsing raised).
pub record Outside (F : Type 0) : Type 0 where
  pub at_gate : ℕ
  pub claims : Option (List Bool)
  pub verdict : Option (Verdict F)
  pub at_end : ℕ

-- what the evaluation found
pub record Scored (F : Type 0) : Type 0 where
  pub faithfulness : F
  pub completeness : F
  pub missing : Missing
  pub action : String

unfoldable pub count_true : List Bool → ℕ
count_true [] = 0
count_true (b ∷ bs) = if b then suc (count_true bs) else count_true bs

unfoldable pub join_commas : List Text → Text
join_commas [] = []
join_commas (m ∷ []) = m
join_commas (m ∷ n ∷ ms) = m ++ (codes ", " ++ join_commas (n ∷ ms))

-- the texts of an iteration, if they are all texts
unfoldable pub all_texts : List Aspect → Option (List Text)
all_texts [] = some []
all_texts (as_other shown ∷ more) = none
all_texts (as_text t ∷ more) = do ts ← all_texts more; some (t ∷ ts)

-- ", ".join(missing), or a TypeError
unfoldable pub joined : Missing → Option Text
unfolding all_texts join_commas
joined falsy = none
joined not_iterable = none
joined (listed items) = do ts ← all_texts items; some (join_commas ts)

-- the caveat behind a draft that could not be verified; `none` is the TypeError
unfoldable pub caveat : Text → Missing → Option Text
unfolding joined
caveat answer missing = do
  gaps ← joined missing
  some (
      answer
      ++ (codes
            "\n\n---\n*Note: some statements above could not be fully verified against the retrieved sources. Gaps: "
          ++ (or_text gaps (codes "the requested details") ++ codes ".*")))

module _ (float : Float) where
  open float use {F, ratio, add, leb_F}

  module _ (limits : Limits F) where
    open limits use {
      agent_timeout, eval_reserve, reflexion_budget, faithfulness_accept, completeness_accept,
    }

    -- the fraction of grounded claims; no claims count as faithful, a crash as unfaithful
    unfoldable pub faithfulness_of : Option (List Bool) → F
    unfolding count_true
    faithfulness_of none = ratio 0 1
    faithfulness_of (some []) = ratio 1 1
    faithfulness_of (some (c ∷ cs)) = ratio (count_true (c ∷ cs)) (length (c ∷ cs))

    abbrev pub no_claims : Option (List Bool) → Bool
    no_claims none = true
    no_claims (some cs) = is_empty cs

    unfoldable pub judge : Outside F → Scored F
    unfolding faithfulness_of
    judge o =
        let faith = faithfulness_of o.claims in
        elim o.verdict [
          | none ↦ record {
            faithfulness = faith;
            completeness = ratio 1 2;
            missing = listed [];
            action = if leb_F faithfulness_accept faith then "regenerate" else "retrieve_more";
          }
          | some v ↦
              let complete = or_else v.completeness (ratio 1 2) in
              record {
                faithfulness = faith;
                completeness = complete;
                missing = or_else v.missing (listed []);
                action =
                    if no_claims o.claims
                    then or_else v.action "retrieve_more"
                    else if leb_F faithfulness_accept faith && leb_F completeness_accept complete
                    then "accept"
                    else or_else v.action "retrieve_more";
              }
        ]

    abbrev pub feedback_of : Scored F → Feedback F
    feedback_of r = record {
      faithfulness = r.faithfulness;
      completeness = r.completeness;
      action = r.action;
      missing_aspects = r.missing;
    }

    -- No gain over the last iteration: `prev and action != "accept"`, the improvement test, and
    -- `count >= 1`.
    unfoldable pub is_stuck : AgentState F → Scored F → Bool
    is_stuck s r = elim (last? s.reflexion_history) [
      | none ↦ false
      | some prev ↦
          not (r.action == "accept")
          && leb_F r.completeness (add prev.completeness (ratio 5 100))
          && leb 1 s.reflexion_count
    ]

    abbrev pub finish : AgentState F → Text → AgentState F
    finish s answer = record s {
      final_answer = some answer;
      reflexion_count = s.reflexion_count + 1;
    }

    abbrev pub remember : AgentState F → Scored F → AgentState F
    remember s r = record s { reflexion_history = s.reflexion_history ++ feedback_of r ∷ [] }

    -- `start is not None and elapsed > AGENT_REFLEXION_BUDGET_S`
    abbrev pub over_budget : Option ℕ → ℕ → Bool
    over_budget none now = false
    over_budget (some start) now = ltb reflexion_budget (now - start)

    -- the two time gates, for a draft that is not empty
    abbrev pub gate : AgentState F → ℕ → Bool
    gate s now = elim s.start_time [
      | none ↦ false
      | some start ↦
          truthy s.draft_answer
          && (ltb agent_timeout (now - start + eval_reserve)
              || (leb 1 s.reflexion_count && ltb reflexion_budget (now - start)))
    ]

    abbrev pub finish_with : AgentState F → Option Text → Option (AgentState F)
    finish_with s none = none
    finish_with s (some answer) = some (finish s answer)

    -- what follows the evaluation; `none` is an exception that ends the run
    unfoldable pub conclude : AgentState F → Scored F → ℕ → Option (AgentState F)
    unfolding caveat is_stuck
    conclude s r now =
        let answer = or_else s.draft_answer [] in
        if is_stuck s r
        then finish_with (remember s r) (
            if leb_F faithfulness_accept r.faithfulness
            then some answer
            else caveat answer r.missing)
        else if r.action == "accept" || over_budget s.start_time now
        then some (finish (remember s r) answer)
        else some (record (remember s r) { reflexion_count = s.reflexion_count + 1 })

    -- `reflexion_evaluator_node`
    unfoldable pub evaluator : Outside F → AgentState F → Option (AgentState F)
    unfolding judge conclude
    evaluator o s =
        if leb max_reflexion s.reflexion_count
        then some (record s { final_answer = s.draft_answer })
        else if gate s o.at_gate
        then some (finish s (or_else s.draft_answer []))
        else conclude s (judge o) o.at_end
