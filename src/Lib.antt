-- ===== src/Lib.antt =====
-- IndicRAG answers questions from a corpus of papers. This library models the parts of it that
-- decide what is answered and from what: the caches, the failover between language models, the
-- numbering of the cited papers, and the agent's loop of planning, retrieval, drafting and checking.
--
-- The program and its model, by file of the repository:
--
--   cache.py: Cache.antt. `TtlCache` is `TTLCache`, with the OrderedDict as an association list,
--     least recently used entry first; `get`, `put` and `invalidate` are the methods. A method runs
--     under the cache's lock, so threads are sequences of calls (Cache/Trace.antt). Cache/Reads.antt
--     has what each method leaves for a later read, Cache/Bounds.antt the invariant.
--   llm_client.py: Llm/Circuits.antt has the circuit breakers (`_circuit_blocked`, `_circuit_fail`,
--     `_circuit_clear`), Llm/Routing.antt `split_model`, `resolve_provider`, `_fallback_model_for` and
--     `_attempts`, Llm/Failover.antt `get_backend` and `generate_with_failover`, Llm/Stream.antt the
--     two streaming loops. The failover asks Routing for its chain and Circuits whether a path is open.
--   rag.py and verify.py: Citation.antt has `citation_number_map`, `format_context` and
--     `_paper_chunk_map`, which number the papers of a context independently of each other.
--     Markers.antt is the scan of the inline markers and the rewriting of their numbers,
--     Citation/Extract.antt `extract_citations` and `compact_citations`; Citation/Seen.antt,
--     Citation/Entries.antt and Citation/Compact.antt are about the panel, Markers/Pieces.antt,
--     Markers/Agree.antt and Markers/RoundTrip.antt about the scan, Markers/Remapped.antt and
--     Markers/Rewritten.antt about the text that is written for a marker.
--   report_runner.py: Report.antt has the outline, the sections with `_remap_markers`, a client of
--     Markers.antt, and the document; the proofs are in Report/Plan.antt, Report/Registry.antt and
--     Report/Global.antt.
--   vector_store.py: Store.antt has the circuit breaker and a call of ChromaDB, Store/Documents.antt
--     `add_documents` (proofs in Store/Added.antt, Store/Rollback.antt, Store/Kept.antt and
--     Store/Breaks.antt), Store/Deletion.antt `delete_by_paper_id`, which runs `remove_documents` of
--     Sparse.antt and `delete_ingest_events` of Ledger.antt (Store/Steps.antt, Store/Removed.antt), and
--     Store/Papers.antt the check of the provenance stamps and the search for similar titles.
--   persistence.py, ingest.py and check_db.py: Ledger.antt has the ingest log, its mirror and the
--     transactions, with the statement at which a write fails and the savepoint of `record_ingest`
--     (Ledger/Mirror.antt, Ledger/Batches.antt), Ledger/Reconcile.antt `reconcile` with
--     its proofs in Ledger/Agreement.antt, Ledger/Consistent.antt and Ledger/Views.antt.
--   bm25_search.py: Sparse.antt has the index with its tombstones, `add_documents`, `build`,
--     `remove_documents` and `compact`; Sparse/Sound.antt the invariant of its counters, Sparse/Live.antt the sums
--     over live documents, Sparse/Update.antt, Sparse/Remove.antt and Sparse/Compact.antt the
--     updates, Sparse/Search.antt `search` and `rrf` with their proofs in Sparse/Found.antt and
--     Sparse/Ranking.antt. The parallel lists of the source are one list of slots.
--   agent/state.py, agent/graph.py: Agent.antt has the state and the edges, Agent/Graph.antt a run,
--     with its proofs in Agent/Graph/Returns.antt and Agent/Graph/Laws.antt. `missing_aspects` is what
--     the model's JSON says, texts or not; an action that is not a text is left out.
--   agent/nodes/: Agent/Planner.antt (query_planner.py), Agent/Selector.antt (tool_selector.py),
--     Agent/Executor.antt (tool_executor_node.py) with Agent/Executor/Tool.antt (`_run_tool`, a client
--     of Cache.antt), Agent/Generator.antt (answer_generator.py, which calls `format_context` of
--     Citation.antt), Agent/Reflexion.antt (reflexion_evaluator.py) and Agent/Finalizer.antt
--     (finalizer.py).
--   providers/gemini.py: Gemini.antt has the configs, the error classifiers and the ladder of thinking
--     levels with what is learned of the models, Gemini/Pool.antt the clients and their round robin,
--     Gemini/Calls.antt `_with_cache`, `_prep_config`, `generate` and `generate_stream`. Their proofs
--     stand in Gemini/Ladder.antt, Gemini/Converge.antt and Gemini/Prepared.antt.
--   gemini_cache.py: Gemini/Context.antt has `get_or_create`, which `_with_cache` calls; its proof is in
--     Gemini/Reuse.antt.
--   deps.py and persistence.py: Sessions.antt has the chat sessions in memory and in their table;
--     Sessions/Saved.antt compares the two, Sessions/Owners.antt is about who opens a session, and
--     Sessions/Turns.antt about two turns of one conversation.
--   deps.py: Access.antt has the checks of API keys and the fingerprint of the caller.
--   deps.py, persistence.py and api_server.py: Jobs.antt has the background jobs with their leases, the
--     reaper and a restart; the proofs stand in Jobs/Leases.antt and Jobs/Restart.antt.
--   persistence.py and watch_runner.py: Watch.antt has the table of watches with `claim_watch` and
--     `due_watches`, Watch/Run.antt `run_watch` and `run_due_watches`; the proofs stand in
--     Watch/Synced.antt, Watch/Claims.antt, Watch/Sweep.antt and Watch/Due.antt.
--   sse_utils.py: Sse.antt has `sse_stream` as the steps of its thread, of the event loop and of the
--     reader; the proofs stand in Sse/Kept.antt, Sse/Whole.antt, Sse/Queueing.antt, Sse/Reading.antt
--     and Sse/Answer.antt.
--
-- What is outside of the source is an argument. For the failover it is a value of `Env`: the clock,
-- the replies and the exceptions of the providers, as functions of a world that is passed on. For
-- the agent it is a value of `External` for each step: replies of models, results of tools, readings
-- of the clock. SHA-256, `str.lower` and the digits of the character database are functions that are
-- passed in, and ChromaDB's collection is a value of `Chroma` (Store/Documents.antt). Floats are a type with the operations that the code uses (`Float`), times are natural
-- numbers of ticks (seconds for sessions, jobs, watches and context caches), and Python's `str` is a list of code points where the code looks into it.
--
-- Fuel: `round_robin` gets one round for each passage, since a round takes at least one passage.
-- `digits` gets one more than the number, which has fewer digits. `find_quoted` gets one more than
-- the length of the reply and reads a character in each step. `upsert_all` gets the number of chunks,
-- since a batch takes at least one; Store/Kept.antt shows that none is left. A run of the graph takes one
-- `External` for each node: six for the first iteration, and five for each of the other two.
--
-- The retry loops of the Gemini backend run six rounds, the length of the ladder and two, as in the
-- source: a budget, four levels and the config without thinking. A table of SQLite is a dict by its
-- primary key, a JSON text is its value, and a time in ISO form is its reading.
--
-- Base.antt passes on the names that the modules share: the libraries', Boolean tests of native
-- numbers, lists measured by them, association lists as Python's dict, and texts.
--
-- Not modelled: logging and metrics; the wording of prompts; the providers' network calls, ChromaDB,
-- the embedding, reranking and translation models; the HTTP routes, the other tables of the SQL
-- persistence and the maintenance scripts; the files of the sparse index; the parsing and chunking of
-- papers; the turn locks and the admission of deps.py. Readings of the clock that only feed metrics
-- are left out. A chunk's metadata is a dict with at least one key, and a citation's number is kept as
-- the number that its text shows. Threads that write to ChromaDB at the same time share the breaker;
-- the theorems on add_documents are about one writer.
pub mod Base
pub mod Cache
pub mod Llm
pub mod Citation
pub mod Agent
pub mod Sparse
pub mod Gemini
pub mod Sessions
pub mod Watch
pub mod Sse
pub mod Jobs
pub mod Access
pub mod Tests
pub mod Markers
pub mod Report
pub mod Store
pub mod Ledger
