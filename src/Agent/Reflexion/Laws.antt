-- ===== src/Agent/Reflexion/Laws.antt =====
-- agent/nodes/reflexion_evaluator.py: what one evaluation does to the loop.
use indic_rag.Agent.{Missing, Float, AgentState, finalizer, max_reflexion, truthy, route_reflexion}
use indic_rag.Agent.Reflexion.{
  joined, finish_with, Limits, Outside, Scored, caveat, judge, is_stuck, finish, remember,
  over_budget, gate, conclude, evaluator,
}
use indic_rag.Base.{
  Bool, Bool-cases, Option, Option-cases, Text, [], arith, false, if◌then◌else◌, inl, inr, is_empty,
  leb, none, or_else, refl, some, subst, sym, true, ◌++◌, ◌+◌, ◌<◌, ◌==◌, ◌||◌, ◌∙◌, ◌∷◌, ◌≡◌, ◌≢◌,
  nat_eq, string_eq, pair_eq, list_eq,
}

some_inj : {A : Type 0} {x y : A} → some x ≡ some y → x ≡ y
some_inj e = cc

module _ (float : Float) (limits : Limits float.F) where
  open float use {F, leb_F}

  -- Every evaluation below the limit counts as one iteration.
  pub count-evaluator :
      (o : Outside F) (s s' : AgentState F)
      → evaluator float limits o s ≡ some s'
      → s'.reflexion_count
        ≡ (if leb max_reflexion s.reflexion_count then s.reflexion_count else s.reflexion_count + 1)
  unfolding evaluator conclude
  count-evaluator o s s' e = ground (arith, e)

  -- an answer that is not empty stops the loop
  final_stops : (s : AgentState F) → truthy s.final_answer ≡ true → route_reflexion s ≡ finalizer
  unfolding route_reflexion
  final_stops s h = ground arith

  truthy_caveat :
      (answer shown : Text) (missing : Missing)
      → is_empty answer ≡ false
      → caveat answer missing ≡ some shown
      → is_empty shown ≡ false
  unfolding caveat
  truthy_caveat answer shown missing h e = elim (Option-cases (joined missing)) [
    | inl n ↦ absurd (ground (arith, e, n))
    | inr (gaps, n) ↦ ground (arith, e, n, longer answer)
  ]
    where
      longer : (a : Text) → is_empty a ≡ false → (b : Text) → is_empty (a ++ b) ≡ false
      longer [] h b = cc
      longer (c ∷ a) h b = refl

  truthy_some : (d : Option Text) → truthy d ≡ true → is_empty (or_else d []) ≡ false
  truthy_some none h = cc
  truthy_some (some t) h = ground arith

  -- an answer that is written in ends the loop, if it is not empty
  finish_stops :
      (s : AgentState F) (answer : Text)
      → is_empty answer ≡ false
      → route_reflexion (finish float limits s answer) ≡ finalizer
  finish_stops s answer h = final_stops (finish float limits s answer) (ground arith)

  pub count_stops :
      (s : AgentState F)
      → leb max_reflexion s.reflexion_count ≡ true
      → route_reflexion s ≡ finalizer
  unfolding route_reflexion
  count_stops s h = rw (h, route_reflexion)

  stuck_stops :
      (s s' : AgentState F) (b : Bool) (answer : Text) (missing : Missing)
      → is_empty answer ≡ false
      → finish_with float limits s (if b then some answer else caveat answer missing) ≡ some s'
      → route_reflexion s' ≡ finalizer
  stuck_stops s s' true answer missing h =
      λ e. subst (λ x. route_reflexion x ≡ finalizer) (some_inj e) (finish_stops s answer h)
  stuck_stops s s' false answer missing h = elim (Option-cases (caveat answer missing)) [
    | inl n ↦ rw (n) (λ e. absurd (ground (arith, e)))
    | inr (shown, n) ↦ rw (n) (λ e.
        subst (λ x. route_reflexion x ≡ finalizer) (some_inj e)
          (finish_stops s shown (truthy_caveat answer shown missing h n)))
  ]

  -- what an evaluation that does not end the loop has done
  abbrev pub GoesOn : Outside F → AgentState F → AgentState F → Type 0
  GoesOn o s s' =
      (s.reflexion_count + 1 < max_reflexion)
      × (gate float limits s o.at_gate ≡ false)
      × (over_budget float limits s.start_time o.at_end ≡ false)
      × (s' ≡ record (remember float limits s (judge float limits o)) {
        reflexion_count = s.reflexion_count + 1;
      })

  conclude-GoesOn :
      (o : Outside F) (s s' : AgentState F)
      → truthy s.draft_answer ≡ true
      → gate float limits s o.at_gate ≡ false
      → conclude float limits s (judge float limits o) o.at_end ≡ some s'
      → route_reflexion s' ≢ finalizer
      → GoesOn o s s'
  unfolding conclude
  conclude-GoesOn o s s' d g = by_stuck (is_stuck float limits s r) refl
    where
      r : Scored F
      r = judge float limits o

      answer : Text
      answer = or_else s.draft_answer []

      counted : AgentState F
      counted = record (remember float limits s r) { reflexion_count = s.reflexion_count + 1 }

      few : route_reflexion counted ≢ finalizer → s.reflexion_count + 1 < max_reflexion
      few h = elim (Bool-cases (leb max_reflexion (s.reflexion_count + 1))) [
        | inl full ↦ absurd (h (count_stops counted full))
        | inr room ↦ ground arith
      ]

      Ending : Type 0
      Ending =
          conclude float limits s r o.at_end ≡ some s'
          → route_reflexion s' ≢ finalizer
          → GoesOn o s s'

      by_end :
          (b : Bool)
          → (r.action == "accept" || over_budget float limits s.start_time o.at_end) ≡ b
          → is_stuck float limits s r ≡ false
          → Ending
      by_end true e f =
          rw (f, e, conclude)
            (λ q h. absurd (
              h (
                subst (λ x. route_reflexion x ≡ finalizer) (some_inj q)
                  (finish_stops (remember float limits s r) answer
                    (truthy_some s.draft_answer d)))))
      by_end false e f =
          rw (f, e, conclude)
            (λ q.
              subst (λ x. route_reflexion x ≢ finalizer → GoesOn o s x) (some_inj q)
                (λ h. (few h, g, ground arith, refl)))

      by_stuck : (b : Bool) → is_stuck float limits s r ≡ b → Ending
      by_stuck true e =
          rw (e, conclude)
            (λ q h. absurd (
              h (
                stuck_stops (remember float limits s r) s'
                  (leb_F limits.faithfulness_accept r.faithfulness) answer r.missing
                  (truthy_some s.draft_answer d) q)))
      by_stuck false e =
          by_end (r.action == "accept" || over_budget float limits s.start_time o.at_end) refl e

  -- With a draft that is not empty, an evaluation that returns sends the run into another iteration
  -- only if fewer than three have been counted, the time gate was passed, and the elapsed time, if the
  -- start is known, is within the budget; it then records its verdict and counts itself.
  pub retry_within_budget :
      (o : Outside F) (s s' : AgentState F)
      → truthy s.draft_answer ≡ true
      → evaluator float limits o s ≡ some s'
      → route_reflexion s' ≢ finalizer
      → GoesOn o s s'
  unfolding evaluator
  retry_within_budget o s s' d = by_count (leb max_reflexion s.reflexion_count) refl
    where
      Ending : Type 0
      Ending = evaluator float limits o s ≡ some s' → route_reflexion s' ≢ finalizer → GoesOn o s s'

      opened :
          gate float limits s o.at_gate ≡ false
          → leb max_reflexion s.reflexion_count ≡ false
          → evaluator float limits o s ≡ conclude float limits s (judge float limits o) o.at_end
      opened g c = rw (c, g, evaluator) refl

      by_gate :
          (b : Bool)
          → gate float limits s o.at_gate ≡ b
          → leb max_reflexion s.reflexion_count ≡ false
          → Ending
      by_gate true e c =
          rw (c, e, evaluator)
            (λ q h. absurd (
              h (
                subst (λ x. route_reflexion x ≡ finalizer) (some_inj q)
                  (finish_stops s _ (truthy_some s.draft_answer d)))))
      by_gate false e c = λ q h. conclude-GoesOn o s s' d e (sym (opened e c) ∙ q) h

      by_count : (b : Bool) → leb max_reflexion s.reflexion_count ≡ b → Ending
      by_count true e =
          rw (e, evaluator)
            (λ q h. absurd (
              h (
                subst (λ x. route_reflexion x ≡ finalizer) (some_inj q)
                  (count_stops (record s { final_answer = s.draft_answer }) e))))
      by_count false e = by_gate (gate float limits s o.at_gate) refl e
