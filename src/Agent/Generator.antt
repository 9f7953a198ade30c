-- ===== src/Agent/Generator.antt =====
-- agent/nodes/answer_generator.py: the draft. The prompt's wording, the stream to the client and
-- the model are outside: `reply` is the text that comes back, `none` an exception.
use indic_rag.Agent.{Passage, AgentState}
use indic_rag.Citation.{Meta, format_context}
use indic_rag.Base.{
  List, Option, Text, codes, if◌then◌else◌, map, none, or_else, some, ℕ, ◌==◌, nat_eq, string_eq,
  pair_eq, list_eq,
}

-- config.NO_DOCUMENTS_RESPONSE and the limits of the agent's context
pub record Settings : Type 0 where
  pub no_documents : Text
  pub max_chunks : ℕ
  pub max_length : ℕ

-- the chunk of a passage, and the metadata that it is numbered by
abbrev pub chunk_of : Passage → Text × Meta
chunk_of p = (
  p.content,
  record {
    title = some (or_else p.title (codes "Unknown"));
    section = some (or_else p.section (codes "body"));
    paper_id = none;
    page = none;
    chunk_type = none;
    crop_path = none;
  },
)

unfoldable pub chunks_used : Settings → List Passage → ℕ
chunks_used c contexts = (format_context c.max_chunks c.max_length (map chunk_of contexts)).1

-- `answer_generator_node`
unfoldable pub answer_generator :
    {F : Type 0} → Settings → Option Text → AgentState F → AgentState F
unfolding chunks_used
answer_generator c reply s =
    if chunks_used c s.retrieved_contexts == 0
    then record s { draft_answer = some c.no_documents }
    else elim reply [
      | none ↦ record s {
        draft_answer = some (codes "The AI model is temporarily unavailable. Please try again.");
      }
      | some answer ↦ record s {
        draft_answer = some answer;
        context_chunks_used = some (chunks_used c s.retrieved_contexts);
      }
    ]
