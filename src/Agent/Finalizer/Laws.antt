-- ===== src/Agent/Finalizer/Laws.antt =====
-- agent/nodes/finalizer.py: what `finalizer_node` makes of an answer.
use indic_rag.Agent.{Missing, Float, Feedback, AgentState}
use indic_rag.Agent.Finalizer.{
  gaps_of, Settings, base_answer, abstention, gap_lines, abstains, report, finalizer_node,
}
use indic_rag.Base.{
  Bool, Bool-cases, Option, Option-cases, Text, [], ap, append-nil, arith, codes, false, inl, inr,
  last?, none, refl, some, subst, sym, true, ℕ, ◌++◌, ◌≡◌,
}

some_inj : {A : Type 0} {x y : A} → some x ≡ some y → x ≡ y
some_inj e = cc

module _ (float : Float) (is_digit : ℕ → Bool) (settings : Settings float.F) where
  open float use {F, leb_F, ltb_F}

  -- the answer stands in the text, alone unless the run abstains
  abbrev pub Presents : Text → Option Text → Bool → Type 0
  Presents answer final abstained =
      (before : Text) × (after : Text) × (final ≡ some (before ++ (answer ++ after)))
      × (abstained ≡ false → (before ≡ []) × (after ≡ []))

  -- the last verdict finds the answer faithful and the question not covered
  abbrev pub Uncovered : AgentState F → Type 0
  Uncovered s =
      (last : Feedback F) × (last? s.reflexion_history ≡ some last)
      × (leb_F settings.faithfulness_accept last.faithfulness ≡ true)
      × (ltb_F last.completeness settings.completeness_floor ≡ true)

  alone : (answer : Text) → Presents answer (some answer) false
  alone answer = ([], [], sym (ap some (append-nil answer)), λ e. (refl, refl))

  -- The answer of an abstention is the answer with a text in front and behind.
  abstention-around :
      (answer shown : Text) (missing : Missing)
      → abstention float is_digit answer missing ≡ some shown
      → (before : Text) × (after : Text) × (shown ≡ before ++ (answer ++ after))
  unfolding abstention
  abstention-around answer shown missing e = elim (Option-cases (gaps_of float is_digit missing)) [
    | inl n ↦ absurd (ground (arith, e, n))
    | inr (gaps, n) ↦ (
      codes
          "**Insufficient evidence in the corpus to fully answer this question.** Here is what the retrieved sources *do* support:\n\n",
      codes "\n\n---\n*Not supported by the corpus:*\n" ++ gap_lines float is_digit gaps,
      ground (arith, e, n),
    )
  ]

  report-Presents :
      (last : Feedback F) (s s' : AgentState F)
      → report float is_digit settings last s ≡ some s'
      → Presents (base_answer float is_digit s) s'.final_answer s'.abstained
        × (s'.abstained ≡ abstains float is_digit settings last)
  unfolding report
  report-Presents last s s' = elim (Bool-cases (abstains float is_digit settings last)) [
    | inr covered ↦
        rw (covered, report)
          (λ e.
            subst
              (λ x.
                Presents (base_answer float is_digit s) x.final_answer x.abstained
                × (x.abstained ≡ false))
              (some_inj e) (alone (base_answer float is_digit s), refl))
    | inl uncovered ↦
        elim (Option-cases
          (abstention float is_digit (base_answer float is_digit s) last.missing_aspects)) [
            | inl n ↦ rw (uncovered, report, n) (λ e. absurd (ground (arith, e)))
            | inr (shown, n) ↦
                let (before, after, around) =
                  abstention-around (base_answer float is_digit s) shown last.missing_aspects n in
                rw (uncovered, report, n)
                  (λ e.
                    subst
                      (λ x.
                        Presents (base_answer float is_digit s) x.final_answer x.abstained
                        × (x.abstained ≡ true))
                      (some_inj e) ((before, after, ap some around, λ f. cc), refl))
          ]
  ]

  -- The final answer has the stripped answer of the run in it, word for word, and nothing else unless
  -- the run abstains; it abstains only if the scores are on, and the last verdict was faithful enough
  -- and below the floor of completeness.
  pub finalizer_node-Presents :
      (s s' : AgentState F)
      → finalizer_node float is_digit settings s ≡ some s'
      → Presents (base_answer float is_digit s) s'.final_answer s'.abstained
        × (s'.abstained ≡ true → (settings.confidence_enable ≡ true) × Uncovered s)
  unfolding finalizer_node
  finalizer_node-Presents s s' = elim (Bool-cases settings.confidence_enable) [
    | inr off ↦ rw (off, finalizer_node) (plain _ s')
    | inl on ↦ elim (Option-cases (last? s.reflexion_history)) [
      | inl first ↦ rw (on, first, finalizer_node) (plain _ s')
      | inr (last, judged) ↦
          rw (on, judged, finalizer_node)
            (λ e.
              let (presents, same) = report-Presents last s s' e in
              (
                presents,
                λ h. (refl, (last, refl, ground (arith, h, same), ground (arith, h, same))),
              ))
    ]
  ]
    where
      unscored : AgentState F
      unscored = record s {
        final_answer = some (base_answer float is_digit s);
        answer_confidence = none;
        abstained = false;
      }

      plain :
          (Q : Type 0) (x : AgentState F)
          → some unscored ≡ some x
          → Presents (base_answer float is_digit s) x.final_answer x.abstained
            × (x.abstained ≡ true → Q)
      plain Q x e =
          subst
            (λ y.
              Presents (base_answer float is_digit s) y.final_answer y.abstained
              × (y.abstained ≡ true → Q))
            (some_inj e) (alone (base_answer float is_digit s), λ h. cc)
