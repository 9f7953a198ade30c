-- ===== src/Agent/Graph/Returns.antt =====
-- agent/nodes/reflexion_evaluator.py and finalizer.py: the nodes return where the missing aspects that
-- the model names are texts.
use indic_rag.Agent.{
  Float, Feedback, AgentState, Aspect, as_text, as_other, Missing, listed, falsy, not_iterable,
  max_reflexion,
}
use indic_rag.Agent.Reflexion.{
  Limits, Verdict, Outside, Scored, all_texts, joined, caveat, judge, is_stuck, finish_with,
  remember, over_budget, gate, conclude, evaluator,
}
use indic_rag.Agent.Finalizer.{gaps_of, base_answer, abstention, abstains, report, finalizer_node}
use indic_rag.Agent.Finalizer
use indic_rag.Base.{
  All, Bool, Bool-cases, List, Option, Option-cases, Text, [], arith, false, if◌then◌else◌, inl,
  inr, is_some, last?, leb, none, or_else, refl, some, subst, sym, true, ℕ, ◌++◌, ◌==◌, ◌||◌, ◌∷◌,
  ◌≡◌, nat_eq, string_eq, pair_eq, list_eq,
}

abbrev pub is_text : Aspect → Bool
is_text (as_text t) = true
is_text (as_other t) = false

-- Every missing aspect is a text.
abbrev pub AllTexts : Missing → Type 0
AllTexts (listed aspects) = All (λ a. is_text a ≡ true) aspects
AllTexts falsy = ⊥
AllTexts not_iterable = ⊥

all_texts-AllTexts :
    (aspects : List Aspect)
    → All (λ a. is_text a ≡ true) aspects
    → (ts : List Text) × (all_texts aspects ≡ some ts)
unfolding all_texts
all_texts-AllTexts [] h = ([], refl)
all_texts-AllTexts (as_other t ∷ aspects) h = absurd (ground (arith, h.0))
all_texts-AllTexts (as_text t ∷ aspects) h =
    let (ts, e) = all_texts-AllTexts aspects h.1 in (t ∷ ts, rw (e, all_texts) refl)

caveat-AllTexts :
    (answer : Text) (missing : Missing)
    → AllTexts missing
    → (shown : Text) × (caveat answer missing ≡ some shown)
unfolding caveat joined
caveat-AllTexts answer falsy h = elim h [ ]
caveat-AllTexts answer not_iterable h = elim h [ ]
caveat-AllTexts answer (listed aspects) h =
    let (ts, e) = all_texts-AllTexts aspects h in
    elim (Option-cases (caveat answer (listed aspects))) [
      | inl n ↦ absurd (ground (arith, e, n))
      | inr found ↦ found
    ]

some_inj : {A : Type 0} {x y : A} → some x ≡ some y → x ≡ y
some_inj e = cc

All-snoc :
    {A : Type 0} (P : A → Type 0) (xs : List A) (x : A) → All P xs → P x → All P (xs ++ x ∷ [])
All-snoc P [] x h p = (p, tt)
All-snoc P (y ∷ xs) x h p = (h.0, All-snoc P xs x h.1 p)

last-All : {A : Type 0} (P : A → Type 0) (xs : List A) (x : A) → All P xs → last? xs ≡ some x → P x
last-All P [] x h e = cc
last-All P (y ∷ []) x h e = subst P (some_inj e) h.0
last-All P (y ∷ z ∷ xs) x h e = last-All P (z ∷ xs) x h.1 e

module _ (float : Float) where
  open float use {F}

  -- `parsed.get("missing_aspects", [])` of an evaluation
  abbrev pub missing_of : Option (Verdict F) → Missing
  missing_of none = listed []
  missing_of (some v) = or_else v.missing (listed [])

  abbrev pub Texts : List (Feedback F) → Type 0
  Texts history = All (λ f. AllTexts f.missing_aspects) history

  module _ (limits : Limits F) where
    judge-missing : (o : Outside F) → (judge float limits o).missing ≡ missing_of o.verdict
    unfolding judge
    judge-missing o = by_verdict o.verdict refl
      where
        by_verdict :
            (v : Option (Verdict F))
            → o.verdict ≡ v
            → (judge float limits o).missing ≡ missing_of o.verdict
        by_verdict none e = rw (e, judge) refl
        by_verdict (some v) e = rw (e, judge) refl

    -- a node that returns, with a history whose aspects are texts
    abbrev pub Returns : Option (AgentState F) → Type 0
    Returns none = ⊥
    Returns (some s) = Texts s.reflexion_history

    finish_with-Returns :
        (s : AgentState F) (b : Bool) (answer : Text) (missing : Missing)
        → AllTexts missing
        → Texts s.reflexion_history
        → Returns (finish_with float limits s (if b then some answer else caveat answer missing))
    finish_with-Returns s true answer missing h t = t
    finish_with-Returns s false answer missing h t =
        let (shown, e) = caveat-AllTexts answer missing h in
        subst (λ o. Returns (finish_with float limits s o)) (sym e) t

    conclude-Returns :
        (s : AgentState F) (r : Scored F) (now : ℕ)
        → AllTexts r.missing
        → Texts s.reflexion_history
        → Returns (conclude float limits s r now)
    unfolding conclude
    conclude-Returns s r now h t =
        let longer : Texts (remember float limits s r).reflexion_history =
          All-snoc (λ f. AllTexts f.missing_aspects) s.reflexion_history _ t h in
        elim (Bool-cases (is_stuck float limits s r)) [
          | inl e ↦
              rw (e, conclude)
                (finish_with-Returns (remember float limits s r) _ (or_else s.draft_answer [])
                  r.missing h longer)
          | inr e ↦
              elim (Bool-cases
                (r.action == "accept" || over_budget float limits s.start_time now)) [
                  | inl f ↦ rw (e, conclude, f) longer
                  | inr f ↦ rw (e, conclude, f) longer
                ]
        ]

    pub evaluator-Returns :
        (o : Outside F) (s : AgentState F)
        → AllTexts (missing_of o.verdict)
        → Texts s.reflexion_history
        → Returns (evaluator float limits o s)
    unfolding evaluator
    evaluator-Returns o s h t = elim (Bool-cases (leb max_reflexion s.reflexion_count)) [
      | inl e ↦ rw (e, evaluator) t
      | inr e ↦ elim (Bool-cases (gate float limits s o.at_gate)) [
        | inl g ↦ rw (e, evaluator, g) t
        | inr g ↦
            rw (e, evaluator, g)
              (conclude-Returns s (judge float limits o) o.at_end
                (subst AllTexts (sym (judge-missing o)) h) t)
      ]
    ]

  module _ (is_digit : ℕ → Bool) (settings : Finalizer.Settings F) where
    -- the finalizer returns an answer, and changes neither the count nor the history
    abbrev pub Finishes : AgentState F → Option (AgentState F) → Type 0
    Finishes s none = ⊥
    Finishes s (some s') =
        (is_some s'.final_answer ≡ true)
        × (s'.reflexion_count ≡ s.reflexion_count)
        × (s'.reflexion_history ≡ s.reflexion_history)

    gaps_of-AllTexts :
        (missing : Missing)
        → AllTexts missing
        → (gaps : List Text) × (gaps_of float is_digit missing ≡ some gaps)
    unfolding gaps_of
    gaps_of-AllTexts falsy h = elim h [ ]
    gaps_of-AllTexts not_iterable h = elim h [ ]
    gaps_of-AllTexts (listed []) h = (_, refl)
    gaps_of-AllTexts (listed (a ∷ more)) h = (_, refl)

    report-Finishes :
        (last : Feedback F) (s : AgentState F)
        → AllTexts last.missing_aspects
        → Finishes s (report float is_digit settings last s)
    unfolding report abstention
    report-Finishes last s h = elim (Bool-cases (abstains float is_digit settings last)) [
      | inl e ↦
          let (gaps, f) = gaps_of-AllTexts last.missing_aspects h in
          rw (e, report, f) (refl, refl, refl)
      | inr e ↦ rw (e, report) (refl, refl, refl)
    ]

    pub finalizer_node-Finishes :
        (s : AgentState F)
        → Texts s.reflexion_history
        → Finishes s (finalizer_node float is_digit settings s)
    unfolding finalizer_node
    finalizer_node-Finishes s t = elim (Bool-cases settings.confidence_enable) [
      | inr off ↦ rw (off, finalizer_node) (refl, refl, refl)
      | inl on ↦ elim (Option-cases (last? s.reflexion_history)) [
        | inl first ↦ rw (on, first, finalizer_node) (refl, refl, refl)
        | inr (last, judged) ↦
            rw (on, judged, finalizer_node)
              (report-Finishes last s
                (last-All (λ f. AllTexts f.missing_aspects) s.reflexion_history last t judged))
      ]
    ]
