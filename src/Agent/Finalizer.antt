-- ===== src/Agent/Finalizer.antt =====
-- agent/nodes/finalizer.py: the final answer, its confidence, and abstention. `is_digit` is the
-- character database's answer for `\d`.
pub mod Laws
use indic_rag.Agent.{
  Aspect, as_text, as_other, Missing, listed, falsy, not_iterable, Float, Feedback, AgentState,
}
use indic_rag.Base.{
  Bool, List, Option, Text, [], ap, codes, false, if◌then◌else◌, is_space, keep_if, last?, leb,
  length, ltb, map, none, not, or_else, or_text, refl, some, strip, subst, true, ℕ, ◌&&◌, ◌*◌, ◌++◌,
  ◌+◌, ◌-◌, ◌/◌, ◌<◌, ◌==◌, ◌>>=◌, ◌||◌, ◌∷◌, nat_eq, string_eq, pair_eq, list_eq,
}

-- config.py
pub record Settings (F : Type 0) : Type 0 where
  pub confidence_enable : Bool
  pub faithfulness_accept : F
  pub completeness_floor : F

-- where the splitting of sentences stands: within one, behind a stop, in the space behind a stop
pub data Mode : Type 0 where
  within stop gap : Mode

abbrev pub is_stop : ℕ → Bool
is_stop c = c == b'.' || c == b'!' || c == b'?'

abbrev pub mode_of : ℕ → Mode
mode_of c = if is_stop c then stop else within

abbrev pub sentence_break : Mode → ℕ → Bool
sentence_break within c = false
sentence_break stop c = is_space c
sentence_break gap c = is_space c

abbrev pub in_gap : Mode → Bool
in_gap gap = true
in_gap _ = false

-- `re.compile(r"(?<=[.!?])\s+").split`; `sentence` is the one that is being read
unfoldable pub split_sentences : Mode → Text → Text → List Text
split_sentences mode sentence [] = sentence ∷ []
split_sentences mode sentence (c ∷ s) = elim (sentence_break mode c) [
  | true ↦ elim (in_gap mode) [
    | true ↦ split_sentences gap sentence s
    | false ↦ sentence ∷ split_sentences gap [] s
  ]
  | false ↦ split_sentences (mode_of c) (sentence ++ c ∷ []) s
]

unfoldable pub closes : (ℕ → Bool) → Text → Bool
closes is_digit [] = false
closes is_digit (c ∷ s) = c == b']' || (is_digit c && closes is_digit s)

unfoldable pub opens : (ℕ → Bool) → Text → Bool
opens is_digit [] = false
opens is_digit (c ∷ s) = is_digit c && closes is_digit s

-- `re.compile(r"\[\d+\]").search`
unfoldable pub has_cite : (ℕ → Bool) → Text → Bool
unfolding opens closes
has_cite is_digit [] = false
has_cite is_digit (c ∷ s) = (c == b'[' && opens is_digit s) || has_cite is_digit s

-- the sentences of more than 20 characters
unfoldable pub substantive : Text → List Text
unfolding split_sentences
substantive t = keep_if (λ s. ltb 20 (length s)) (split_sentences within [] (strip t))

module _ (float : Float) (is_digit : ℕ → Bool) where
  open float use {F, ratio, add, mul, leb_F, ltb_F, round3}

  -- `citation_coverage`
  unfoldable pub citation_coverage : Text → F
  unfolding substantive has_cite
  citation_coverage t = elim (substantive t) [
    | [] ↦ ratio 0 1
    | s ∷ ss ↦ ratio (length (keep_if (has_cite is_digit) (s ∷ ss))) (length (s ∷ ss))
  ]

  -- `_confidence`
  unfoldable pub confidence : Feedback F → Text → F
  unfolding citation_coverage
  confidence feedback answer = round3 (
      add (add (mul (ratio 5 10) feedback.faithfulness) (mul (ratio 3 10) feedback.completeness))
        (mul (ratio 2 10) (citation_coverage answer)))

  -- "\n".join(f"- {m}" for m in missing)
  unfoldable pub gap_lines : List Text → Text
  gap_lines [] = []
  gap_lines (m ∷ []) = codes "- " ++ m
  gap_lines (m ∷ n ∷ ms) = codes "- " ++ (m ++ (codes "\n" ++ gap_lines (n ∷ ms)))

  abbrev pub str_of : Aspect → Text
  str_of (as_text t) = t
  str_of (as_other t) = t

  -- `missing or ["parts of the question"]`, iterated over; `none` is a TypeError
  unfoldable pub gaps_of : Missing → Option (List Text)
  gaps_of falsy = some (codes "parts of the question" ∷ [])
  gaps_of not_iterable = none
  gaps_of (listed []) = some (codes "parts of the question" ∷ [])
  gaps_of (listed (a ∷ more)) = some (map str_of (a ∷ more))

  unfoldable pub abstention : Text → Missing → Option Text
  unfolding gap_lines gaps_of
  abstention answer missing = do
    gaps ← gaps_of missing
    some (
        codes
          "**Insufficient evidence in the corpus to fully answer this question.** Here is what the retrieved sources *do* support:\n\n"
        ++ (answer ++ (codes "\n\n---\n*Not supported by the corpus:*\n" ++ gap_lines gaps)))

  -- `final_answer or draft_answer or "Unable …"`, stripped
  unfoldable pub base_answer : AgentState F → Text
  base_answer s = strip (
      or_text (or_else s.final_answer []) (
        or_text (or_else s.draft_answer [])
          (codes "Unable to generate an answer. Please try rephrasing.")))

  module _ (settings : Settings F) where
    open settings use {confidence_enable, faithfulness_accept, completeness_floor}

    abbrev pub abstains : Feedback F → Bool
    abstains last =
        leb_F faithfulness_accept last.faithfulness && ltb_F last.completeness completeness_floor

    abbrev pub reported : Feedback F → AgentState F → Text → AgentState F
    reported last s answer = record s {
      final_answer = some answer;
      answer_confidence = some (confidence last (base_answer s));
      abstained = abstains last;
    }

    unfoldable pub report : Feedback F → AgentState F → Option (AgentState F)
    unfolding abstention confidence base_answer
    report last s = do
      answer ←
          if abstains last
          then abstention (base_answer s) last.missing_aspects
          else some (base_answer s)
      some (reported last s answer)

    -- `finalizer_node`
    unfoldable pub finalizer_node : AgentState F → Option (AgentState F)
    unfolding report
    finalizer_node s = elim (if confidence_enable then last? s.reflexion_history else none) [
      | none ↦ some (record s {
        final_answer = some (base_answer s);
        answer_confidence = none;
        abstained = false;
      })
      | some last ↦ report last s
    ]
