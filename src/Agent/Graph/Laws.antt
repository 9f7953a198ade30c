-- ===== src/Agent/Graph/Laws.antt =====
-- agent/graph.py: how many nodes a run visits.
use indic_rag.Agent.{
  Float, AgentState, Node, query_planner, tool_selector, tool_executor, answer_generator,
  reflexion_evaluator, finalizer, end, next_node, route_action, route_reflexion, max_reflexion,
}
use indic_rag.Agent.Planner
use indic_rag.Agent.Selector
use indic_rag.Agent.Executor
use indic_rag.Agent.Generator
use indic_rag.Agent.Reflexion.Laws.{count_stops, count-evaluator}
use indic_rag.Agent.Reflexion.{evaluator}
use indic_rag.Agent.Graph.Returns.{
  AllTexts, missing_of, Texts, Returns, evaluator-Returns, Finishes, finalizer_node-Finishes,
}
use indic_rag.Agent.Graph.{External, Settings, run_node, run_graph}
use indic_rag.Base.{
  All, Bool, Bool-cases, Eq, List, Option, Text, [], ap, arith, if◌then◌else◌, inl, inr, is_some,
  leb, length, none, refl, some, subst, suc, sym, true, ℕ, ◌*◌, ◌+◌, ◌-◌, ◌<◌, ◌∷◌, ◌≡◌, ◌≢◌, ◌≤◌,
  nat_eq, string_eq, pair_eq, list_eq,
}

module _ (float : Float) {D : Type 0} ⦃e : Eq D⦄ (digest : Text → D) (lower : Text → Text)
    (is_digit : ℕ → Bool) (c : Settings float digest lower is_digit) where
  open float use {F}

  -- the nodes that are still to come, at most
  abbrev left_of : Node → ℕ → ℕ
  left_of query_planner n = 6 + 5 * (2 - n)
  left_of tool_selector n = 5 + 5 * (2 - n)
  left_of tool_executor n = 4 + 5 * (2 - n)
  left_of answer_generator n = 3 + 5 * (2 - n)
  left_of reflexion_evaluator n = 2 + 5 * (2 - n)
  left_of finalizer n = 1
  left_of end n = 0

  abbrev left : Node → AgentState F → ℕ
  left node s = left_of node s.reflexion_count

  left_most : (node : Node) (n : ℕ) → left_of node n ≤ 6 + 5 * (2 - n)
  left_most query_planner n = omega arith
  left_most tool_selector n = omega arith
  left_most tool_executor n = omega arith
  left_most answer_generator n = omega arith
  left_most reflexion_evaluator n = omega arith
  left_most finalizer n = omega arith
  left_most end n = omega arith

  route_left :
      (s : AgentState F) (n : ℕ)
      → s.reflexion_count ≡ (if leb max_reflexion n then n else n + 1)
      → left (route_reflexion s) s < 2 + 5 * (2 - n)
  route_left s n h = elim (Bool-cases (leb max_reflexion s.reflexion_count)) [
    | inl full ↦ rw (count_stops float c.limits s full) (ground arith)
    | inr few ↦ let most = left_most (route_reflexion s) s.reflexion_count in ground arith
  ]

  -- what holds in a run: three iterations at most, an answer at the end, and aspects that are texts
  abbrev Sound : Node → AgentState F → Type 0
  Sound node s =
      (s.reflexion_count ≤ 3)
      × (node ≡ end → is_some s.final_answer ≡ true)
      × Texts float s.reflexion_history

  -- a step that returns leaves fewer nodes to come
  abbrev Steps : ℕ → Node → Option (AgentState F) → Type 0
  Steps k node none = ⊥
  Steps k node (some s) = (left (next_node node s) s ≤ k) × Sound (next_node node s) s

  route_goes_on : (s : AgentState F) → route_reflexion s ≢ end
  unfolding route_reflexion route_action
  route_goes_on s h = ground arith

  selector_keeps :
      (x : External F) (s : AgentState F)
      → (let s' = Selector.tool_selector lower c.max_queries x.chosen_tools s in
          (s'.reflexion_count ≡ s.reflexion_count) × (s'.reflexion_history ≡ s.reflexion_history))
  unfolding Selector.tool_selector
  selector_keeps x s = (ground arith, ground arith)

  generator_keeps :
      (x : External F) (s : AgentState F)
      → (let s' = Generator.answer_generator c.generator x.answer_reply s in
          (s'.reflexion_count ≡ s.reflexion_count) × (s'.reflexion_history ≡ s.reflexion_history))
  unfolding Generator.answer_generator
  generator_keeps x s = (ground arith, ground arith)

  evaluated :
      (x : External F) (s : AgentState F) (k : ℕ)
      → left reflexion_evaluator s ≤ suc k
      → s.reflexion_count ≤ 3
      → (o : Option (AgentState F)) → evaluator float c.limits x.evaluation s ≡ o
      → Returns float c.limits o
      → Steps k reflexion_evaluator o
  unfolding next_node
  evaluated x s k h few none e r = r
  evaluated x s k h few (some s') e r =
      let count = count-evaluator float c.limits x.evaluation s s' e in
      let near = route_left s' s.reflexion_count count in
      (omega arith, (ground arith, λ g. absurd (route_goes_on s' g), r))

  finalized :
      (s : AgentState F) (k : ℕ)
      → s.reflexion_count ≤ 3
      → Texts float s.reflexion_history
      → (o : Option (AgentState F)) → Finishes float is_digit c.final s o
      → Steps k finalizer o
  unfolding next_node
  finalized s k few t none f = f
  finalized s k few t (some s') (answered, count, history) =
      (omega arith, (omega (arith, count), λ h. answered, subst (Texts float) (sym history) t))

  step_lem :
      (node : Node) (x : External F) (s : AgentState F) (k : ℕ)
      → AllTexts (missing_of float x.evaluation.verdict)
      → left node s ≤ suc k
      → Sound node s
      → Steps k node (run_node float digest lower is_digit c node x s)
  unfolding next_node run_node Planner.query_planner Executor.tool_executor
  step_lem query_planner x s k typed h (few, answered, t) = (omega arith, (few, λ g. cc, t))
  step_lem tool_selector x s k typed h (few, answered, t) =
      let (count, history) = selector_keeps x s in
      (omega (arith, count), (omega (arith, count), λ g. cc, subst (Texts float) (sym history) t))
  step_lem tool_executor x s k typed h (few, answered, t) = (omega arith, (few, λ g. cc, t))
  step_lem answer_generator x s k typed h (few, answered, t) =
      let (count, history) = generator_keeps x s in
      (omega (arith, count), (omega (arith, count), λ g. cc, subst (Texts float) (sym history) t))
  step_lem reflexion_evaluator x s k typed h (few, answered, t) =
      evaluated x s k h few _ refl (evaluator-Returns float c.limits x.evaluation s typed t)
  step_lem finalizer x s k typed h (few, answered, t) =
      finalized s k few t _ (finalizer_node-Finishes float is_digit c.final s t)
  step_lem end x s k typed h sound = (omega arith, sound)

  left_over_none : (node : Node) (n : ℕ) → left_of node n ≤ 0 → node ≡ end
  left_over_none query_planner n h = absurd (omega arith)
  left_over_none tool_selector n h = absurd (omega arith)
  left_over_none tool_executor n h = absurd (omega arith)
  left_over_none answer_generator n h = absurd (omega arith)
  left_over_none reflexion_evaluator n h = absurd (omega arith)
  left_over_none finalizer n h = absurd (omega arith)
  left_over_none end n h = refl

  -- the run has returned at the graph's end
  abbrev Arrives : Option (Node × AgentState F) → Type 0
  Arrives none = ⊥
  Arrives (some (node, s)) = (node ≡ end) × Sound node s

  run-Arrives :
      (xs : List (External F)) (node : Node) (s : AgentState F)
      → All (λ x. AllTexts (missing_of float x.evaluation.verdict)) xs
      → left node s ≤ length xs
      → Sound node s
      → Arrives (run_graph float digest lower is_digit c xs node s)
  unfolding run_graph
  run-Arrives [] node s typed h sound = (left_over_none node s.reflexion_count h, sound)
  run-Arrives (x ∷ xs) node s typed h sound =
      go (run_node float digest lower is_digit c node x s)
        (λ s'. run-Arrives xs (next_node node s') s' typed.1)
        (step_lem node x s (length xs) typed.0 h sound)
    where
      go :
          (o : Option (AgentState F))
          → ((s' : AgentState F)
              → left (next_node node s') s' ≤ length xs
              → Sound (next_node node s') s'
              → Arrives (run_graph float digest lower is_digit c xs (next_node node s') s'))
          → Steps (length xs) node o
          → Arrives (elim o [
            | none ↦ none
            | some s' ↦ run_graph float digest lower is_digit c xs (next_node node s') s'
          ])
      go none again step = step
      go (some s') again (fewer, sound') = again s' fewer sound'

  arrived :
      (o : Option (Node × AgentState F))
      → Arrives o
      → (s' : AgentState F) × (o ≡ some (end, s'))
        × (is_some s'.final_answer ≡ true)
        × (s'.reflexion_count ≤ 3)
  arrived none a = elim a [ ]
  arrived (some (node, s')) (over, (few, answered, t)) =
      (s', ap (λ n. some (n, s')) over, answered over, few)

  -- A run that starts at the planner, with no iteration counted and no verdict recorded, returns after
  -- sixteen nodes, where the missing aspects that the model names in its verdicts are lists of texts:
  -- whatever else the models, the tools and the clock do, it stands at the graph's end, with a final
  -- answer and with at most three iterations counted. (Other aspects may end the run in a TypeError;
  -- a verdict whose action is not a text is left out of the model.)
  pub run_graph_ends :
      (xs : List (External F)) (s : AgentState F)
      → s.reflexion_count ≡ 0
      → s.reflexion_history ≡ []
      → All (λ x. AllTexts (missing_of float x.evaluation.verdict)) xs
      → 16 ≤ length xs
      → (s' : AgentState F) × (run_graph float digest lower is_digit c xs query_planner s
          ≡ some (end, s'))
        × (is_some s'.final_answer ≡ true)
        × (s'.reflexion_count ≤ 3)
  run_graph_ends xs s h fresh typed enough =
      arrived (run_graph float digest lower is_digit c xs query_planner s) (
        run-Arrives xs query_planner s typed (omega arith)
          (omega arith, λ x. cc, subst (Texts float) (sym fresh) tt))
