-- ===== src/Agent/Planner.antt =====
-- agent/nodes/query_planner.py: the sub-queries of a question. The model's reply is an argument.
pub mod Laws
use indic_rag.Agent.{AgentState}
use indic_rag.Base.{
  Bool, List, Option, String, Text, [], codes, false, if◌then◌else◌, is_empty, keep_if, keys, leb,
  length, max, none, not, or_else, or_text, refl, some, strip, suc, take, true, zero, ℕ, ◌&&◌, ◌-◌,
  ◌/◌, ◌==◌, ◌^◌, ◌||◌, ◌∷◌, nat_eq, string_eq, pair_eq, list_eq,
}

-- what the planner reads of the parsed reply: the elements of `sub_queries` that are texts, if it
-- is a list; the year, if it is a number; the hints, if they are a list
pub record Plan : Type 0 where
  pub sub_queries : Option (List Text)
  pub year_from : Option ℕ
  pub domain_hints : Option (List Text)

-- `failed` is an exception, with the raw reply that had come in by then
pub data Reply : Type 0 where
  parsed : Plan → Reply
  failed : Text → Reply

-- `[q.strip() for q in raw_queries if q.strip()]`
unfoldable pub stripped : List Text → List Text
stripped [] = []
stripped (q ∷ qs) = if is_empty (strip q) then stripped qs else strip q ∷ stripped qs

-- the text up to the next quotation mark, if there is one, and what follows that
unfoldable pub quoted : Text → Option (Text × Text)
quoted [] = none
quoted (c ∷ s) = elim (c == b'"') [
  | true ↦ some ([], s)
  | false ↦ elim (quoted s) [ none ↦ none | some (q, rest) ↦ some (c ∷ q, rest) ]
]

-- `re.findall(r'"([^"]{10,})"', raw)`, on fuel: a quotation mark with no match is passed over
unfoldable pub find_quoted : ℕ → Text → List Text
find_quoted zero s = []
find_quoted (suc fuel) [] = []
find_quoted (suc fuel) (c ∷ s) = elim (c == b'"') [
  | false ↦ find_quoted fuel s
  | true ↦ elim (quoted s) [
    | none ↦ []
    | some (q, rest) ↦ elim (leb 10 (length q)) [
      | true ↦ q ∷ find_quoted fuel rest
      | false ↦ find_quoted fuel s
    ]
  ]
]

unfoldable pub has_prefix : Text → Text → Bool
has_prefix [] s = true
has_prefix (c ∷ p) [] = false
has_prefix (c ∷ p) (d ∷ s) = c == d && has_prefix p s

-- the quoted texts of a reply that are no keys of the schema
unfoldable pub extracted : Text → List Text
unfolding quoted find_quoted has_prefix
extracted raw =
    keep_if
      (λ q. not (
        has_prefix (codes "sub_queries") q
        || has_prefix (codes "year_from") q
        || has_prefix (codes "domain_hints") q))
      (find_quoted (suc (length raw)) raw)

unfoldable pub sub_queries_of : ℕ → Text → Reply → List Text
unfolding stripped extracted
sub_queries_of max_queries query (parsed p) = elim p.sub_queries [
  | none ↦ take max_queries (query ∷ [])
  | some qs ↦ take max_queries (or_text (stripped qs) (query ∷ []))
]
sub_queries_of max_queries query (failed raw) = elim (extracted raw) [
  | [] ↦ query ∷ []
  | q ∷ qs ↦ take max_queries (q ∷ qs)
]

abbrev pub year_of : Reply → Option ℕ
year_of (parsed p) = p.year_from
year_of (failed raw) = none

abbrev pub hints_of : Reply → List Text
hints_of (parsed p) = or_else p.domain_hints []
hints_of (failed raw) = []

-- `query_planner_node`; the language is that of `lang_utils.detect_language`, or "en"
unfoldable pub query_planner : {F : Type 0} → ℕ → String → Reply → AgentState F → AgentState F
unfolding sub_queries_of
query_planner max_queries language reply s = record s {
  detected_language = language;
  query_plan = sub_queries_of max_queries s.original_query reply;
  year_from = year_of reply;
  domain_hints = hints_of reply;
  tool_calls_requested = [];
  retrieved_contexts = if s.reflexion_count == 0 then [] else s.retrieved_contexts;
}
