-- ===== src/Tests/Tools.antt =====
-- Calls of a tool through a cache of one entry.
use indic_rag.Agent.{ToolArgs, corpus}
use indic_rag.Agent.Executor.{ToolResult}
use indic_rag.Agent.Executor.Tool.{Times}
use indic_rag.Cache.{TtlCache, get}
use indic_rag.Cache.Bounds.{IsValid}
use indic_rag.Base.{
  String, [], arith, codes, lookup, none, refl, some, ℕ, ◌/◌, ◌≡◌, nat_eq, string_eq, pair_eq,
  list_eq,
}

abbrev key_of : String → ToolArgs → String
key_of name args = name

abbrev ms : ℕ → ℕ
ms ns = ns / 1000000

abbrev empty_cache : TtlCache String ToolResult
empty_cache = record { max_size = 1; ttl = 100; store = []; hits = 0; misses = 0 }

abbrev found_text : ToolResult
found_text = record { error = none; passages = none; text = some (codes "zero") }

abbrev times : Times
times = record { start = 0; at_get = 1; finished = 5; at_put = 6 }

abbrev web_args : ToolArgs
web_args = corpus (codes "zero")

empty-IsValid : IsValid empty_cache
empty-IsValid = record { positive = omega arith; bounded = omega arith; distinct = tt }

empty_misses : (get (key_of "web_search" web_args) 1 empty_cache).1 ≡ none
unfolding get lookup
empty_misses = refl
