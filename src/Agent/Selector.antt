-- ===== src/Agent/Selector.antt =====
-- agent/nodes/tool_selector.py: which tools are called. `lower` is `str.lower`, which goes by the
-- character database; the model's choice of tools is an argument.
pub mod Laws
use indic_rag.Agent.{Feedback, ToolArgs, corpus, ToolCall, AgentState}
use indic_rag.Base.{
  Bool, List, Option, String, Text, [], ap, false, get_or, if◌then◌else◌, is_empty, keep_if, last?,
  map, max, mem, none, not, or_text, refl, some, strip, take, true, ℕ, ◌&&◌, ◌++◌, ◌+◌, ◌-◌, ◌/◌,
  ◌==◌, ◌∷◌, nat_eq, string_eq, pair_eq, list_eq,
}

abbrev pub retrieval_tool : String
retrieval_tool = "indicrag_retrieval"

abbrev pub max_external_calls : ℕ
max_external_calls = 2

abbrev pub corpus_call : Text → ToolCall
corpus_call q = record { name = retrieval_tool; args = corpus q }

-- `history[-1]["action"] if history else None`, compared with "regenerate"
abbrev pub is_regenerate : {F : Type 0} → List (Feedback F) → Bool
is_regenerate history = elim (last? history) [
  | none ↦ false
  | some last ↦ last.action == "regenerate"
]

-- the loop over the queries; `seen` holds their lower-case forms
unfoldable pub new_queries : (Text → Text) → List Text → List Text → List Text
new_queries lower seen [] = []
new_queries lower seen (query ∷ queries) =
    let q = strip query in
    elim (not (is_empty q) && not (mem (lower q) seen)) [
      | true ↦ q ∷ new_queries lower (lower q ∷ seen) queries
      | false ↦ new_queries lower seen queries
    ]

unfoldable pub external : List ToolCall → List ToolCall
external calls = take max_external_calls (keep_if (λ c. not (c.name == retrieval_tool)) calls)

-- `_ensure_corpus_coverage`; `max_queries` is AGENT_MAX_SUB_QUERIES
unfoldable pub ensure_corpus_coverage :
    {F : Type 0} → (Text → Text) → ℕ → List ToolCall → List Text → List (Feedback F) → List ToolCall
unfolding new_queries external
ensure_corpus_coverage lower max_queries calls queries history =
    if is_regenerate history
    then calls
    else map corpus_call (take max_queries (new_queries lower [] queries)) ++ external calls

-- `state.get("query_plan") or [state["original_query"]]`, and its first query
abbrev pub plan_of : {F : Type 0} → AgentState F → List Text
plan_of s = or_text s.query_plan (s.original_query ∷ [])

abbrev pub first_query : {F : Type 0} → AgentState F → Text
first_query s = get_or (plan_of s) 0 s.original_query

-- The calls of the model, or the default one; `none` is an exception on the way.
unfoldable pub tool_selector :
    {F : Type 0} → (Text → Text) → ℕ → Option (List ToolCall) → AgentState F → AgentState F
unfolding ensure_corpus_coverage
tool_selector lower max_queries reply s = elim reply [
  | none ↦ record s { tool_calls_requested = corpus_call (first_query s) ∷ [] }
  | some calls ↦ record s {
    tool_calls_requested =
        ensure_corpus_coverage lower max_queries
          (if is_empty calls && not (is_regenerate s.reflexion_history)
            then corpus_call (first_query s) ∷ []
            else calls)
          (plan_of s) s.reflexion_history;
  }
]
