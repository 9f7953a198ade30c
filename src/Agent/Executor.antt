-- ===== src/Agent/Executor.antt =====
-- agent/nodes/tool_executor_node.py: what the tools return, pooled. `digest` is SHA-256 of a text;
-- the results come in the order in which the tools finish.
pub mod Collect
pub mod Interleave
pub mod Tool
use indic_rag.Agent.{Passage, ToolArgs, ToolCall, LogEntry, AgentState}
use indic_rag.Base.{
  Dict, Eq, List, Option, String, Text, [], any, ap, codes, if◌then◌else◌, insert, length, lookup,
  map, max, mem, none, or_else, some, suc, take, zero, ℕ, ◌++◌, ◌+◌, ◌-◌, ◌/◌, ◌∷◌, nat_eq,
  string_eq, pair_eq, list_eq,
}

-- the dict that a tool returns, a key that is absent as `none`
pub record ToolResult : Type 0 where
  pub error : Option Text
  pub passages : Option (List Passage)
  pub text : Option Text

-- what `_run_tool` returns
pub record Completed : Type 0 where
  pub name : String
  pub args : ToolArgs
  pub result : ToolResult
  pub latency : ℕ

-- `p.setdefault("retriever", name)`
abbrev pub with_retriever : String → Passage → Passage
with_retriever name p = record p { retriever = some (or_else p.retriever name) }

abbrev pub tool_passage : String → Text → Passage
tool_passage name content = record {
  content = content;
  title = none;
  section = none;
  source = some name;
  retriever = some name;
}

-- the passage that tells the model of a failed tool
abbrev pub failure_text : String → Text → Text
failure_text name message =
    codes "[Tool '"
    ++ (codes name
        ++ (codes "' failed: " ++ (message ++ codes ". Try a different query or tool.]")))

module _ {D : Type 0} ⦃e : Eq D⦄ (digest : Text → D) where
  -- the lists that `_collect_result` extends
  pub record Pool : Type 0 where
    pub contexts : List Passage
    pub seen_hashes : List D
    pub log : List LogEntry

  -- one passage, unless its text was seen
  unfoldable pub add_passage : Passage → Pool → Pool
  add_passage p pool = if mem (digest p.content) pool.seen_hashes then pool else record pool {
    contexts = pool.contexts ++ p ∷ [];
    seen_hashes = digest p.content ∷ pool.seen_hashes;
  }

  unfoldable pub add_passages : String → List Passage → Pool → Pool
  add_passages name [] pool = pool
  add_passages name (p ∷ ps) pool = add_passages name ps (add_passage (with_retriever name p) pool)

  unfoldable pub add_result : Completed → Pool → Pool
  add_result c pool = elim c.result.error [
    | some message ↦ add_passage (tool_passage c.name (failure_text c.name message)) pool
    | none ↦ elim c.result.passages [
      | some ps ↦ add_passages c.name ps pool
      | none ↦ elim c.result.text [
        | some t ↦ add_passage (tool_passage c.name t) pool
        | none ↦
            add_passage (tool_passage c.name (failure_text c.name (codes "no results returned")))
              pool
      ]
    ]
  ]

  -- `_collect_result`
  unfoldable pub collect_result : Completed → Pool → Pool
  unfolding add_result
  collect_result c pool =
      let pooled = add_result c pool in
      record pooled {
        log =
            pooled.log
            ++ record { tool = c.name; args = c.args; latency = c.latency; error = c.result.error }
              ∷ [];
      }

  unfoldable pub collect_all : List Completed → Pool → Pool
  collect_all [] pool = pool
  collect_all (c ∷ cs) pool = collect_all cs (collect_result c pool)

-- the deques of `_interleave_by_retriever`, in the order of their first passage
abbrev pub retriever_of : Passage → String
retriever_of p = or_else p.retriever "unknown"

unfoldable pub group : List Passage → Dict String (List Passage) → Dict String (List Passage)
group [] groups = groups
group (c ∷ contexts) groups =
    group contexts
      (insert (retriever_of c) (or_else (lookup (retriever_of c) groups) [] ++ c ∷ []) groups)

abbrev pub values {ℓ κ} : {K : Type ℓ} {V : Type κ} → Dict K V → List V
values [] = []
values ((k, v) ∷ d) = v ∷ values d

module _ {ℓ} {A : Type ℓ} where
  -- one turn of the `for` loop: the element that each queue gives
  unfoldable pub heads : List (List A) → List A
  heads [] = []
  heads ([] ∷ queues) = heads queues
  heads ((x ∷ q) ∷ queues) = x ∷ heads queues

  -- the queues that are left, without the empty ones
  unfoldable pub left_over : List (List A) → List (List A)
  left_over [] = []
  left_over ([] ∷ queues) = left_over queues
  left_over ((x ∷ []) ∷ queues) = left_over queues
  left_over ((x ∷ y ∷ q) ∷ queues) = (y ∷ q) ∷ left_over queues

  -- `while queues`, on fuel
  unfoldable pub round_robin : ℕ → List (List A) → List A
  round_robin zero queues = []
  round_robin (suc fuel) [] = []
  round_robin (suc fuel) (q ∷ queues) =
      heads (q ∷ queues) ++ round_robin fuel (left_over (q ∷ queues))

-- `_interleave_by_retriever`: each turn takes a passage of each queue, so as many turns as there
-- are passages are enough
unfoldable pub interleave_by_retriever : List Passage → List Passage
unfolding group round_robin heads left_over
interleave_by_retriever contexts = round_robin (length contexts) (values (group contexts []))

-- `calls[:_MAX_PARALLEL_TOOLS]`, with `_MAX_PARALLEL_TOOLS = AGENT_MAX_SUB_QUERIES + 2`
abbrev pub run_calls : ℕ → List ToolCall → List ToolCall
run_calls max_queries calls = take (max_queries + 2) calls

module _ {D F : Type 0} ⦃e : Eq D⦄ (digest : Text → D) where
  -- `tool_executor_node`, from what the tools that were run have returned
  unfoldable pub tool_executor : List Completed → AgentState F → AgentState F
  unfolding collect_all interleave_by_retriever
  tool_executor completed s =
      let pool = collect_all digest completed (record {
        contexts = s.retrieved_contexts;
        seen_hashes = map (λ (p : Passage). digest p.content) s.retrieved_contexts;
        log = s.tool_calls_log;
      }) in
      record s {
        retrieved_contexts = interleave_by_retriever pool.contexts;
        tool_calls_log = pool.log;
        tool_calls_requested = [];
      }
