-- ===== src/Agent.antt =====
-- agent/state.py and agent/graph.py: the state of an agent run, and the graph of its nodes. A node
-- returns the state with its update written in; what it asks of a model, a tool or the clock is an
-- argument.
pub mod Planner
pub mod Selector
pub mod Executor
pub mod Generator
pub mod Reflexion
pub mod Finalizer
pub mod Graph
use indic_rag.Base.{
  Bool, List, Option, String, Text, ap, false, if◌then◌else◌, is_empty, keys, last?, leb, ltb, max,
  none, not, refl, some, ℕ, ◌-◌, ◌/◌, ◌==◌, ◌||◌, nat_eq, string_eq, pair_eq, list_eq,
}

-- The operations on floats that the source uses, on a type that stands for its floats.
pub record Float : Type 1 where
  pub F : Type 0
  -- a / b
  pub ratio : ℕ → ℕ → F
  pub add : F → F → F
  pub mul : F → F → F
  pub leb_F : F → F → Bool
  pub ltb_F : F → F → Bool
  -- round(x, 3)
  pub round3 : F → F

-- one of the missing aspects of the model's JSON: a text, or another value, with its `str()`
pub data Aspect : Type 0 where
  as_text as_other : Text → Aspect

-- The model's `missing_aspects`: what iterating over it gives (a list, or the keys of an object, or the
-- characters of a text), or a value that is false (null, 0), or one that cannot be iterated over.
pub data Missing : Type 0 where
  listed : List Aspect → Missing
  falsy not_iterable : Missing

-- `ReflexionFeedback`; the action is a text of the model's
pub record Feedback (F : Type 0) : Type 0 where
  pub faithfulness : F
  pub completeness : F
  pub action : String
  pub missing_aspects : Missing

-- one passage of `retrieved_contexts`; `none` is a key that is absent
pub record Passage : Type 0 where
  pub content : Text
  pub title : Option Text
  pub section : Option Text
  pub source : Option String
  pub retriever : Option String

-- the arguments of a tool call: those that the source writes, and those of the model
pub data ToolArgs : Type 0 where
  corpus : Text → ToolArgs
  chosen : String → ToolArgs

pub record ToolCall : Type 0 where
  pub name : String
  pub args : ToolArgs

pub record LogEntry : Type 0 where
  pub tool : String
  pub args : ToolArgs
  pub latency : ℕ
  pub error : Option Text

-- `AgentState`
pub record AgentState (F : Type 0) : Type 0 where
  pub original_query : Text
  pub detected_language : String
  pub query_plan : List Text
  pub year_from : Option ℕ
  pub domain_hints : List Text
  pub tool_calls_requested : List ToolCall
  pub retrieved_contexts : List Passage
  pub draft_answer : Option Text
  pub final_answer : Option Text
  pub context_chunks_used : Option ℕ
  pub reflexion_count : ℕ
  pub reflexion_history : List (Feedback F)
  pub tool_calls_log : List LogEntry
  pub start_time : Option ℕ
  pub answer_confidence : Option F
  pub abstained : Bool

abbrev pub max_reflexion : ℕ
max_reflexion = 3

-- the nodes of the graph, and its END
pub data Node : Type 0 where
  query_planner tool_selector tool_executor answer_generator reflexion_evaluator finalizer end :
      Node

-- the truth of a text that may be None
abbrev pub truthy : Option Text → Bool
truthy none = false
truthy (some s) = not (is_empty s)

-- the dict in `_route_reflexion`
unfoldable pub route_action : String → Node
route_action action =
    if action == "accept"
    then finalizer
    else if action == "regenerate"
    then answer_generator
    else if action == "retrieve_more"
    then tool_selector
    else if action == "reformulate"
    then query_planner
    else finalizer

module _ {F : Type 0} where
  -- `_route_reflexion`
  unfoldable pub route_reflexion : AgentState F → Node
  unfolding route_action
  route_reflexion s =
      if leb max_reflexion s.reflexion_count || truthy s.final_answer
      then finalizer
      else elim (last? s.reflexion_history) [
        | none ↦ finalizer
        | some last ↦ route_action last.action
      ]

  -- `build_agent_graph`: the edge that leaves each node
  unfoldable pub next_node : Node → AgentState F → Node
  unfolding route_reflexion
  next_node query_planner s = tool_selector
  next_node tool_selector s = tool_executor
  next_node tool_executor s = answer_generator
  next_node answer_generator s = reflexion_evaluator
  next_node reflexion_evaluator s = route_reflexion s
  next_node finalizer s = end
  next_node end s = end
