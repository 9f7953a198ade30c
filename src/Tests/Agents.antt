-- ===== src/Tests/Agents.antt =====
-- A run of the agent, with thousandths for floats.
use indic_rag.Agent.{
  as_text, as_other, listed, Float, Passage, corpus, ToolCall, AgentState, query_planner,
  tool_selector, finalizer, end, route_action, route_reflexion,
}
use indic_rag.Agent.Planner.{failed}
use indic_rag.Agent.Selector.{new_queries, external, ensure_corpus_coverage}
use indic_rag.Agent.Executor.{Completed, Pool, collect_all}
use indic_rag.Agent.Executor.Collect.{digests, pooled, all_digests, collect_all-pool}
use indic_rag.Agent.Reflexion.{
  all_texts, joined, Limits, Verdict, Outside, count_true, caveat, faithfulness_of, judge, is_stuck,
  conclude, evaluator,
}
use indic_rag.Agent.Reflexion.Laws.{GoesOn, retry_within_budget}
use indic_rag.Agent.Graph.{External, Settings, run_graph}
use indic_rag.Agent.Graph.Returns.{AllTexts, missing_of}
use indic_rag.Agent.Graph.Laws.{run_graph_ends}
use indic_rag.Base.{
  All, List, String, Text, Unique, [], arith, codes, false, is_some, leb, ltb, map, mem, none, refl,
  some, strip, sym, true, ℕ, ◌*◌, ◌+◌, ◌/◌, ◌||◌, ◌∙◌, ◌∷◌, ◌≡◌, ◌≢◌, ◌≤◌, nat_eq, string_eq,
  pair_eq, list_eq,
}

program : Unit {0}
unfolding route_action route_reflexion count_true all_texts joined caveat faithfulness_of judge
    is_stuck conclude evaluator new_queries external ensure_corpus_coverage strip
program = tt

abbrev thousandths : Float
thousandths = record {
  F = ℕ;
  ratio = λ a b. a * 1000 / b;
  add = λ a b. a + b;
  mul = λ a b. a * b / 1000;
  leb_F = leb;
  ltb_F = ltb;
  round3 = λ a. a;
}

abbrev limits : Limits ℕ
limits = record {
  agent_timeout = 90;
  eval_reserve = 10;
  reflexion_budget = 45;
  faithfulness_accept = 600;
  completeness_accept = 700;
}

abbrev verdict : Verdict ℕ
verdict = record {
  completeness = some 300;
  action = some "retrieve_more";
  missing = some (listed []);
}

abbrev outside : Outside ℕ
outside = record {
  at_gate = 20;
  claims = some (true ∷ false ∷ []);
  verdict = some verdict;
  at_end = 25;
}

abbrev start : AgentState ℕ
start = record {
  original_query = codes "What is zero?";
  detected_language = "en";
  query_plan = codes "zero in India" ∷ codes " Zero in India " ∷ codes "place value" ∷ [];
  year_from = none;
  domain_hints = [];
  tool_calls_requested = [];
  retrieved_contexts = [];
  draft_answer = some (codes "Zero is a number [1].");
  final_answer = none;
  context_chunks_used = none;
  reflexion_count = 0;
  reflexion_history = [];
  tool_calls_log = [];
  start_time = some 0;
  answer_confidence = none;
  abstained = false;
}

-- the state behind the evaluation of `start`
abbrev retried : AgentState ℕ
retried = record start {
  reflexion_count = 1;
  reflexion_history =
      record {
        faithfulness = 500;
        completeness = 300;
        action = "retrieve_more";
        missing_aspects = listed [];
      }
      ∷ [];
}

retries : evaluator thousandths limits outside start ≡ some retried
unfolding program
retries = refl

goes_back : route_reflexion retried ≡ tool_selector
unfolding program
goes_back = refl

selector_not_final : tool_selector ≢ finalizer
selector_not_final h = cc

retry_within_budget_example : GoesOn thousandths limits outside start retried
retry_within_budget_example =
    retry_within_budget thousandths limits outside start retried refl retries
      (λ h. selector_not_final (sym goes_back ∙ h))

-- an aspect that is not a text ends a run that makes no progress in a TypeError
abbrev odd : Outside ℕ
odd = record outside {
  verdict = some (record verdict { missing = some (listed (as_other (codes "None") ∷ [])) });
}

crashes : evaluator thousandths limits odd retried ≡ none
unfolding program
crashes = refl

abbrev settings : Settings thousandths (λ t. t) (λ t. t) (λ c. false)
settings = record {
  max_queries = 4;
  generator = record { no_documents = codes "none"; max_chunks = 5; max_length = 1000 };
  limits = limits;
  final = record { confidence_enable = true; faithfulness_accept = 600; completeness_floor = 400 };
}

abbrev meeting : External ℕ
meeting = record {
  language = "hi";
  plan_reply = failed [];
  chosen_tools = some [];
  completed = [];
  answer_reply = some (codes "Zero is a number [1].");
  evaluation = outside;
}

abbrev steps : List (External ℕ)
steps =
    meeting ∷ meeting ∷ meeting ∷ meeting ∷ meeting ∷ meeting ∷ meeting ∷ meeting ∷ meeting
    ∷ meeting ∷ meeting ∷ meeting ∷ meeting ∷ meeting ∷ meeting ∷ meeting ∷ []

steps-AllTexts : All (λ x. AllTexts (missing_of thousandths x.evaluation.verdict)) steps
steps-AllTexts = (
  tt,
  (tt, (tt, (tt, (tt, (tt, (tt, (tt, (tt, (tt, (tt, (tt, (tt, (tt, (tt, (tt, tt))))))))))))))),
)

run_graph_ends_example :
    (s : AgentState ℕ) × (run_graph thousandths
        (λ t. t)
        (λ t. t)
        (λ c. false)
        settings
        steps
        query_planner
        start
      ≡ some (end, s))
    × (is_some s.final_answer ≡ true)
    × (s.reflexion_count ≤ 3)
run_graph_ends_example =
    run_graph_ends thousandths (λ t. t) (λ t. t) (λ c. false) settings steps start refl refl
      steps-AllTexts (omega arith)

abbrev web_call : ToolCall
web_call = record { name = "arxiv_search"; args = corpus (codes "zero") }

abbrev asked_for : List ToolCall
asked_for = web_call ∷ web_call ∷ web_call ∷ []

abbrev passage_by : String → String → Passage
passage_by name content = record {
  content = codes content;
  title = none;
  section = none;
  source = none;
  retriever = some name;
}

abbrev results : List Completed
results =
    record {
      name = "corpus";
      args = corpus (codes "zero");
      result = record {
        error = none;
        passages =
            some (passage_by "corpus" "a" ∷ passage_by "corpus" "b" ∷ passage_by "corpus" "a" ∷ []);
        text = none;
      };
      latency = 12;
    }
    ∷ record {
      name = "arxiv";
      args = corpus (codes "zero");
      result = record { error = some (codes "timeout"); passages = none; text = none };
      latency = 30;
    }
    ∷ []

abbrev empty_pool : Pool (λ (t : Text). t)
empty_pool = record { contexts = []; seen_hashes = []; log = [] }

collect_all-pool_example :
    Unique (digests (λ t. t) (collect_all (λ t. t) results empty_pool).contexts)
    × ((d : Text)
        → pooled (λ t. t) d (collect_all (λ t. t) results empty_pool)
          ≡ (pooled (λ t. t) d empty_pool || mem d (all_digests (λ t. t) results)))
    × (map (λ l. l.tool) (collect_all (λ t. t) results empty_pool).log ≡ "corpus" ∷ "arxiv" ∷ [])
collect_all-pool_example = collect_all-pool (λ t. t) results empty_pool (tt, λ d. refl)

abbrev mixed : List Passage
mixed = passage_by "corpus" "a" ∷ passage_by "corpus" "b" ∷ passage_by "arxiv" "c" ∷ []

abbrev judged : AgentState ℕ
judged = record start {
  reflexion_history =
      record {
        faithfulness = 900;
        completeness = 300;
        action = "retrieve_more";
        missing_aspects = listed (as_text (codes "dates") ∷ []);
      }
      ∷ [];
}
