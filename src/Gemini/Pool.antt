-- ===== src/Gemini/Pool.antt =====
-- providers/gemini.py: the pools of clients and the round robin over them.
use indic_rag.Base.{
  List, Option, String, [], get_elem?, if◌then◌else◌, is_empty, length, ltb, map, none, some, ℕ,
  ◌*◌, ◌+◌,
}

pub record Settings : Type 0 where
  pub key_pool : List String
  pub request_timeout : ℕ
  pub stream_timeout : ℕ

-- `genai.Client(api_key=..., http_options=HttpOptions(timeout=seconds * 1000))`
pub record Client : Type 0 where
  pub api_key : String
  pub timeout : ℕ

pub record Pools : Type 0 where
  pub unary : List Client
  pub streaming : List Client
  pub index : ℕ

abbrev pub no_pools : Pools
no_pools = record { unary = []; streaming = []; index = 0 }

-- `_client`
abbrev pub client_of : ℕ → String → Client
client_of seconds key = record { api_key = key; timeout = seconds * 1000 }

-- `_init_pool`; without keys it raises
unfoldable pub init_pool : Settings → Option Pools
init_pool cfg =
    if is_empty cfg.key_pool
    then none
    else some record {
      unary = map (client_of cfg.request_timeout) cfg.key_pool;
      streaming = map (client_of cfg.stream_timeout) cfg.key_pool;
      index = 0;
    }

unfoldable pub ensure_pool : Settings → Pools → Option Pools
ensure_pool cfg p = if is_empty p.unary then init_pool cfg else some p

-- `next` on `itertools.cycle(range(n))`
abbrev pub next_of_cycle : ℕ → ℕ → ℕ
next_of_cycle n i = if ltb (i + 1) n then i + 1 else 0

-- the index that is given out, and the state behind it
unfoldable pub next_client_idx : Settings → Pools → Option (ℕ × Pools)
next_client_idx cfg p = elim (ensure_pool cfg p) [
  | none ↦ none
  | some q ↦ some (q.index, record q { index = next_of_cycle (length q.unary) q.index })
]

-- `client or self.pool[self.next_client_idx()]`, for either pool. The outer option is the error of
-- a missing key, the inner one an index that is out of range.
unfoldable pub pick_client :
    (Pools → List Client) → Settings → Option Client → Pools → Option (Option Client × Pools)
pick_client pool cfg (some client) p = some (some client, p)
pick_client pool cfg none p = elim (next_client_idx cfg p) [
  | none ↦ none
  | some (i, q) ↦ some (get_elem? (pool q) i, q)
]
