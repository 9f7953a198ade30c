-- ===== src/Agent/Graph.antt =====
-- agent/graph.py: a run of the compiled graph. LangGraph runs the node, merges its update and
-- follows the edge; what every node meets outside is an argument of its step.
pub mod Returns
pub mod Laws
use indic_rag.Agent.{
  Float, AgentState, ToolCall, Node, query_planner, tool_selector, tool_executor, answer_generator,
  reflexion_evaluator, finalizer, end, next_node,
}
use indic_rag.Agent.Planner
use indic_rag.Agent.Selector
use indic_rag.Agent.Executor
use indic_rag.Agent.Executor.{Completed}
use indic_rag.Agent.Generator
use indic_rag.Agent.Reflexion
use indic_rag.Agent.Reflexion.{Limits, Outside}
use indic_rag.Agent.Finalizer
use indic_rag.Base.{
  Bool, Eq, List, Option, String, Text, [], ap, max, none, refl, some, ℕ, ◌-◌, ◌/◌, ◌∷◌, nat_eq,
  string_eq, pair_eq, list_eq,
}

-- What one step may meet outside; each node reads its own part.
pub record External (F : Type 0) : Type 0 where
  pub language : String
  pub plan_reply : Planner.Reply
  pub chosen_tools : Option (List ToolCall)
  pub completed : List Completed
  pub answer_reply : Option Text
  pub evaluation : Outside F

module _ (float : Float) {D : Type 0} ⦃e : Eq D⦄ (digest : Text → D) (lower : Text → Text)
    (is_digit : ℕ → Bool) where
  open float use {F}

  pub record Settings : Type 0 where
    pub max_queries : ℕ
    pub generator : Generator.Settings
    pub limits : Limits F
    pub final : Finalizer.Settings F

  module _ (c : Settings) where
    unfoldable pub run_node : Node → External F → AgentState F → Option (AgentState F)
    run_node query_planner x s =
        some (Planner.query_planner c.max_queries x.language x.plan_reply s)
    run_node tool_selector x s = some (Selector.tool_selector lower c.max_queries x.chosen_tools s)
    run_node tool_executor x s = some (Executor.tool_executor digest x.completed s)
    run_node answer_generator x s = some (Generator.answer_generator c.generator x.answer_reply s)
    run_node reflexion_evaluator x s = Reflexion.evaluator float c.limits x.evaluation s
    run_node finalizer x s = Finalizer.finalizer_node float is_digit c.final s
    run_node end x s = some s

    -- The nodes of a run, one step for each element of the list; `none` is the exception of a node.
    unfoldable pub run_graph :
        List (External F) → Node → AgentState F → Option (Node × AgentState F)
    run_graph [] node s = some (node, s)
    run_graph (x ∷ xs) node s = elim (run_node node x s) [
      | none ↦ none
      | some s' ↦ run_graph xs (next_node node s') s'
    ]
