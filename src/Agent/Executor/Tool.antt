-- ===== src/Agent/Executor/Tool.antt =====
-- agent/nodes/tool_executor_node.py, `_run_tool`: one call of a tool, through the cache of results.
-- `make_key` is the digest of cache.py; what the tool does, when it is called, is an argument.
use indic_rag.Agent.{ToolArgs}
use indic_rag.Agent.Executor.{ToolResult, Completed}
use indic_rag.Cache.{TtlCache, get, put}
use indic_rag.Cache.Reads.{result-get, lookup-get, lookup-put}
use indic_rag.Cache.Bounds.{IsValid, get-IsValid, put_total}
use indic_rag.Cache.Trace.{get-settings, put-settings}
use indic_rag.Base.{
  ==_refl, Bool, Eq, Option, String, Text, [], arith, codes, false, if◌then◌else◌, is_some, none,
  not, refl, some, true, ℕ, ◌&&◌, ◌++◌, ◌+◌, ◌-◌, ◌||◌, ◌≡◌, ◌≤◌, nat_eq, string_eq, pair_eq,
  list_eq,
}

-- what a tool does: it returns its dict, or raises
pub data Did : Type 0 where
  returned : ToolResult → Did
  raised : Text → Did

-- the readings of the clock in one call, the last one for the latency
pub record Times : Type 0 where
  pub start : ℕ
  pub at_get : ℕ
  pub finished : ℕ
  pub at_put : ℕ

abbrev pub failed_with : Text → ToolResult
failed_with message = record { error = some message; passages = some []; text = none }

-- the truth of the dict
abbrev pub is_filled : ToolResult → Bool
is_filled r = is_some r.error || is_some r.passages || is_some r.text

abbrev pub result_of : Did → ToolResult
result_of (returned r) = r
result_of (raised message) = failed_with message

module _ {K : Type 0} ⦃k : Eq K⦄ (make_key : String → ToolArgs → K) (round_ms : ℕ → ℕ) where
  abbrev pub ToolCache : Type 0
  ToolCache = TtlCache K ToolResult

  abbrev pub completed : String → ToolArgs → ToolResult → ℕ → Completed
  completed name args result latency = record {
    name = name;
    args = args;
    result = result;
    latency = latency;
  }

  -- the cache behind a call that was made; `none` is the KeyError of a cache of size 0
  unfoldable pub store : String → ToolArgs → Bool → ToolResult → ℕ → ToolCache → Option ToolCache
  store name args cacheable result now cache =
      if cacheable && (is_filled result && not (is_some result.error))
      then put (make_key name args) result now cache
      else some cache

  -- `known` says whether TOOL_DISPATCH has the tool
  unfoldable pub run_tool :
      (known cacheable : Bool)
      → String
      → ToolArgs
      → Times
      → Did
      → ToolCache
      → Option (Completed × ToolCache)
  unfolding store
  run_tool false cacheable name args t did cache =
      some (completed name args (failed_with (codes "Unknown tool: " ++ codes name)) 0, cache)
  run_tool true cacheable name args t did cache =
      let (cache1, hit) =
        if cacheable then get (make_key name args) t.at_get cache else (cache, none) in
      elim hit [
        | some result ↦ some (completed name args result (round_ms (t.finished - t.start)), cache1)
        | none ↦ elim (store name args cacheable (result_of did) t.at_put cache1) [
          | none ↦ none
          | some cache2 ↦
              some (completed name args (result_of did) (round_ms (t.finished - t.start)), cache2)
        ]
      ]

  -- a later call of a cacheable tool gets this result, whatever the tool would do
  abbrev pub Remembers : String → ToolArgs → ToolResult → Times → ToolCache → Type 0
  Remembers name args r t cache =
      (did : Did)
      → (later : ToolCache) × (run_tool true true name args t did cache
          ≡ some (completed name args r (round_ms (t.finished - t.start)), later))

  hit-Remembers :
      (name : String) (args : ToolArgs) (r : ToolResult) (t : Times) (cache : ToolCache)
      → (get (make_key name args) t.at_get cache).1 ≡ some r
      → Remembers name args r t cache
  unfolding run_tool
  hit-Remembers name args r t cache hit did =
      ((get (make_key name args) t.at_get cache).0, rw (hit, run_tool) refl)

  stored-get :
      (key : K) (r : ToolResult) (now later : ℕ) (c c' : ToolCache)
      → IsValid c
      → put key r now c ≡ some c'
      → later ≤ now + c.ttl
      → (get key later c').1 ≡ some r
  stored-get key r now later c c' h done young = ground (
    arith,
    result-get key later c',
    lookup-put key key r now c {c' = c'} h.distinct done,
    put-settings key r now c done,
    ==_refl key,
  )

  -- If a cacheable tool that is not in the cache returns a dict with no error, the call succeeds with
  -- it, and every further call in the time to live gets the same dict without the tool.
  pub run_tool-Remembers :
      (name : String) (args : ToolArgs) (r : ToolResult) (t : Times) (cache : ToolCache)
      → IsValid cache
      → (get (make_key name args) t.at_get cache).1 ≡ none
      → r.error ≡ none
      → is_filled r ≡ true
      → (cache' : ToolCache) × (run_tool true true name args t (returned r) cache
          ≡ some (completed name args r (round_ms (t.finished - t.start)), cache'))
        × ((t' : Times) → t'.at_get ≤ t.at_put + cache.ttl → Remembers name args r t' cache')
  unfolding run_tool store
  run_tool-Remembers name args r t cache h miss clean filled =
      let c1 = (get (make_key name args) t.at_get cache).0 in
      let h1 = get-IsValid (make_key name args) t.at_get cache h in
      let (c2, done, h2) = put_total (make_key name args) r t.at_put c1 h1 in
      (
        c2,
        ground (arith, done),
        λ t' young. hit-Remembers name args r t' c2 (
            stored-get (make_key name args) r t.at_put t'.at_get c1 c2 h1 done
              (omega (arith, (get-settings (make_key name args) t.at_get cache).0))),
      )

  missed :
      (key : K) (now later : ℕ) (c : ToolCache)
      → (get key now c).1 ≡ none
      → (get key later (get key now c).0).1 ≡ none
  missed key now later c miss = ground (
    arith,
    result-get key later (get key now c).0,
    lookup-get key key now c,
    result-get key now c,
    ==_refl key,
  )

  -- A call that fails is not remembered: what the tool does the next time is what comes back.
  pub run_tool_failed :
      (name : String) (args : ToolArgs) (message : Text) (t t' : Times) (cache : ToolCache)
      → (get (make_key name args) t.at_get cache).1 ≡ none
      → (cache' : ToolCache) × (run_tool true true name args t (raised message) cache
          ≡ some
              (completed name args (failed_with message) (round_ms (t.finished - t.start)), cache'))
        × ((get (make_key name args) t'.at_get cache').1 ≡ none)
  unfolding run_tool store
  run_tool_failed name args message t t' cache miss = (
    (get (make_key name args) t.at_get cache).0,
    ground arith,
    missed (make_key name args) t.at_get t'.at_get cache miss,
  )
