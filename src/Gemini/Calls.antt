-- ===== src/Gemini/Calls.antt =====
-- providers/gemini.py: `generate` and `generate_stream` over one client. The world is what the
-- network and the context caches live in; the client is given by its `id`.
use indic_rag.Gemini.{
  Sdk, GenConfig, ApiError, Learned, level_ladder, supports_thinking, has_thinking_budget,
  translate_thinking, skip_rejected_levels, drop_thinking, next_config,
}
use indic_rag.Gemini.Context.{Contexts, Service, get_or_create}
use indic_rag.Base.{
  Bool, List, Option, String, Text, [], codes, contains, false, if◌then◌else◌, inl, inr, is_empty,
  is_some, length, mem, none, not, some, suc, zero, ℕ, ◌&&◌, ◌++◌, ◌+◌, ◌==◌, ◌∷◌, ◌⊎◌, nat_eq,
  string_eq, pair_eq, list_eq,
}

-- What is read of a chunk: the finish reason of the first candidate as a text, if there is one, and
-- `chunk.text`, where reading it neither raises nor gives an empty text.
pub record StreamChunk : Type 0 where
  pub finish_reason : Option Text
  pub text : Option Text

pub record Network (sdk : Sdk) : Type 1 where
  pub Response : Type 0
  pub service : Service sdk.Tools
  pub generate_content :
      ℕ → String → GenConfig sdk → service.World → (Response ⊎ ApiError) × service.World
  pub generate_content_stream :
      ℕ
      → String
      → GenConfig sdk
      → service.World
      → List StreamChunk × Option ApiError × service.World

-- What ends a call: the client's exception, or one of the two of this file.
pub data GeminiError : Type 0 where
  api_error : ApiError → GeminiError
  not_converged : GeminiError
  no_text : GeminiError

-- providers/base.py: what a cut stream ends with
abbrev pub truncation_note : Text
truncation_note =
    codes
      "\n\n*[Answer truncated — output token limit reached. Ask a narrower question or raise `LLM_MAX_TOKENS`.]*"

-- the last finish reason that is set
abbrev pub last_finish : Option Text → List StreamChunk → Option Text
last_finish finish [] = finish
last_finish finish (chunk ∷ chunks) =
    last_finish (if is_some chunk.finish_reason then chunk.finish_reason else finish) chunks

unfoldable pub texts_of : List StreamChunk → List Text
texts_of [] = []
texts_of (chunk ∷ chunks) = elim chunk.text [
  | none ↦ texts_of chunks
  | some text ↦ text ∷ texts_of chunks
]

abbrev pub cut_short : Option Text → Bool
cut_short none = false
cut_short (some finish) = contains (codes "MAX_TOKENS") finish

-- `_iter` of a stream that ends normally: its texts, and the note behind them
unfoldable pub iter_texts : List StreamChunk → List Text
unfolding texts_of
iter_texts chunks =
    if not (is_empty (texts_of chunks)) && cut_short (last_finish none chunks)
    then texts_of chunks ++ truncation_note ∷ []
    else texts_of chunks

module _ (sdk : Sdk) where
  -- `_prep_config` behind the context cache
  unfoldable pub settle_thinking : String → Learned → GenConfig sdk → GenConfig sdk
  settle_thinking model l c =
      if not (supports_thinking sdk model)
      then drop_thinking sdk c
      else if mem model l.zero_budget && has_thinking_budget sdk c
      then skip_rejected_levels sdk model l (translate_thinking sdk c)
      else skip_rejected_levels sdk model l c

module _ (sdk : Sdk) (net : Network sdk) where
  open net use {Response, service, generate_content, generate_content_stream}

  -- what the backend and the world hold between calls
  pub record State : Type 0 where
    pub learned : Learned
    pub contexts : Contexts
    pub world : service.World

  abbrev pub with_world : State → service.World → State
  with_world s w = record s { world = w }

  -- `model_copy(update={"system_instruction": None, "tools": None, "cached_content": name})`
  abbrev pub use_cache : Option String → GenConfig sdk → GenConfig sdk
  use_cache none c = c
  use_cache (some name) c =
      if name == ""
      then c
      else record c { system_instruction = none; tools = none; cached_content = some name }

  unfoldable pub with_cache : ℕ → String → GenConfig sdk → State → GenConfig sdk × State
  with_cache client model c s = elim c.system_instruction [
    | none ↦ (c, s)
    | some instruction ↦
        if is_empty instruction
        then (c, s)
        else (let (name, contexts, w) =
              get_or_create service client model instruction c.tools s.contexts s.world in
            (use_cache name c, record s { contexts = contexts; world = w }))
  ]

  unfoldable pub prep_config : ℕ → String → GenConfig sdk → State → GenConfig sdk × State
  prep_config client model c s =
      let (call_config, t) = with_cache client model c s in
      (settle_thinking sdk model t.learned call_config, t)

  -- The loop of `generate`, by the rounds that are left.
  unfoldable pub generate_rounds :
      ℕ → ℕ → String → GenConfig sdk → State → (Response ⊎ GeminiError) × State
  generate_rounds zero client model c s = (inr not_converged, s)
  generate_rounds (suc rounds) client model c s =
      let (answer, w) = generate_content client model c s.world in
      elim answer [
        | inl response ↦ (inl response, with_world s w)
        | inr exc ↦
            (let (retry, learned) = next_config sdk model c exc s.learned in
              let t = record s { learned = learned; world = w } in
              elim retry [
                | none ↦ (inr (api_error exc), t)
                | some next ↦ generate_rounds rounds client model next t
              ])
      ]

  abbrev pub max_rounds : ℕ
  max_rounds = length level_ladder + 2

  unfoldable pub generate : ℕ → String → GenConfig sdk → State → (Response ⊎ GeminiError) × State
  generate client model c s =
      let (call_config, t) = prep_config client model c s in
      generate_rounds max_rounds client model call_config t

  -- the texts that are yielded, and what is raised behind them
  abbrev pub Streamed : Type 0
  Streamed = List Text × Option GeminiError × State

  -- the end of a stream without an exception
  abbrev pub end_stream : List Text → State → Streamed
  end_stream [] s = ([], some no_text, s)
  end_stream (x ∷ xs) s = (x ∷ xs, none, s)

  -- The loop of `generate_stream`: a pass that has yielded is the last one, so that `emitted` is
  -- false at the head of each.
  unfoldable pub stream_rounds : ℕ → ℕ → String → GenConfig sdk → State → Streamed
  stream_rounds zero client model c s = ([], some not_converged, s)
  stream_rounds (suc rounds) client model c s =
      let (chunks, ended, w) = generate_content_stream client model c s.world in
      elim ended [
        | none ↦ end_stream (iter_texts chunks) (with_world s w)
        | some exc ↦
            if not (is_empty (texts_of chunks))
            then (texts_of chunks, some (api_error exc), with_world s w)
            else (let (retry, learned) = next_config sdk model c exc s.learned in
                let t = record s { learned = learned; world = w } in
                elim retry [
                  | none ↦ ([], some (api_error exc), t)
                  | some next ↦ stream_rounds rounds client model next t
                ])
      ]

  unfoldable pub generate_stream : ℕ → String → GenConfig sdk → State → Streamed
  generate_stream client model c s =
      let (call_config, t) = prep_config client model c s in
      stream_rounds max_rounds client model call_config t
