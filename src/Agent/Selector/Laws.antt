-- ===== src/Agent/Selector/Laws.antt =====
-- agent/nodes/tool_selector.py: what `_ensure_corpus_coverage` makes of a plan.
use indic_rag.Agent.{Feedback, ToolArgs, corpus, chosen as chosen_args, ToolCall}
use indic_rag.Agent.Selector.{
  retrieval_tool, corpus_call, is_regenerate, new_queries, external, ensure_corpus_coverage,
}
use indic_rag.Agent.Executor.{run_calls}
use indic_rag.Base.{
  ==_iff, ==_refl, Bool, Bool-cases, List, Text, Unique, [], arith, codes, false, inl, inr,
  is_empty, keep_if, keep_if-append, length, length-append, length-keep_if, length-map,
  length-take-le, map, mem, not, refl, strip, subst, suc, sym, take, take_all, true, zero, ℕ, ◌&&◌,
  ◌++◌, ◌+◌, ◌==◌, ◌||◌, ◌∷◌, ◌≡◌, ◌≤◌, nat_eq, string_eq, pair_eq, list_eq,
}

abbrev pub is_corpus : ToolCall → Bool
is_corpus c = c.name == retrieval_tool

abbrev query_of : ToolArgs → Text
query_of (corpus q) = q
query_of (chosen_args s) = codes s

-- the texts for which the corpus is searched
abbrev pub corpus_queries : List ToolCall → List Text
corpus_queries calls = map (λ (c : ToolCall). query_of c.args) (keep_if is_corpus calls)

corpus_queries-coverage :
    (qs : List Text) (calls : List ToolCall) (n : ℕ)
    → corpus_queries
        (map corpus_call qs ++ take n (keep_if (λ c. not (c.name == retrieval_tool)) calls))
      ≡ qs
corpus_queries-coverage [] calls n = no_corpus calls n
  where
    no_corpus :
        (calls : List ToolCall) (n : ℕ)
        → corpus_queries (take n (keep_if (λ c. not (c.name == retrieval_tool)) calls)) ≡ []
    no_corpus calls zero = refl
    no_corpus [] (suc n) = refl
    no_corpus (c ∷ calls) (suc n) = elim (Bool-cases (c.name == retrieval_tool)) [
      | inl e ↦ rw e (no_corpus calls (suc n))
      | inr e ↦ rw (e, e) (no_corpus calls n)
    ]
corpus_queries-coverage (q ∷ qs) calls n = λ i. q ∷ corpus_queries-coverage qs calls n i

module _ (lower : Text → Text) where
  new_queries-Unique :
      (seen queries : List Text)
      → Unique (map lower (new_queries lower seen queries))
        × ((t : Text)
            → mem t seen ≡ true
            → mem t (map lower (new_queries lower seen queries)) ≡ false)
  unfolding new_queries
  new_queries-Unique seen [] = (tt, λ t h. refl)
  new_queries-Unique seen (query ∷ queries) =
      let q = strip query in
      elim (Bool-cases (not (is_empty q) && not (mem (lower q) seen))) [
        | inl e ↦
            let (u, m) = new_queries-Unique (lower q ∷ seen) queries in
            rw (e, new_queries)
              (
                (m (lower q) (ground (arith, ==_refl (lower q))), u),
                λ t h. ground (arith, m t, ==_iff (lower q) t),
              )
        | inr e ↦ rw (e, new_queries) (new_queries-Unique seen queries)
      ]

  -- the query has been asked, in some case
  abbrev Asked : List Text → List Text → Text → Type 0
  Asked seen queries query =
      (mem (lower (strip query)) seen
        || mem (lower (strip query)) (map lower (new_queries lower seen queries)))
      ≡ true

  first-Asked :
      (seen queries : List Text) (query : Text)
      → is_empty (strip query) ≡ false
      → Asked seen (query ∷ queries) query
  unfolding new_queries
  first-Asked seen queries query f = elim (Bool-cases (mem (lower (strip query)) seen)) [
    | inl e ↦ rw e refl
    | inr e ↦ rw (e, f, new_queries) (ground (arith, ==_refl (lower (strip query))))
  ]

  rest-Asked :
      (seen queries : List Text) (q query : Text)
      → ((seen : List Text) → Asked seen queries query)
      → Asked seen (q ∷ queries) query
  unfolding new_queries
  rest-Asked seen queries q query asked =
      elim (Bool-cases (not (is_empty (strip q)) && not (mem (lower (strip q)) seen))) [
        | inl e ↦ rw (e, new_queries) (ground (arith, asked (lower (strip q) ∷ seen)))
        | inr e ↦ rw (e, new_queries) (asked seen)
      ]

  -- a query that is not blank is asked, in some case
  new_queries-covers :
      (queries : List Text) (query : Text)
      → mem query queries ≡ true
      → is_empty (strip query) ≡ false
      → (seen : List Text) → Asked seen queries query
  new_queries-covers [] query h f seen = cc
  new_queries-covers (q ∷ queries) query h f seen = elim (Bool-cases (q == query)) [
    | inl e ↦
        subst (λ x. Asked seen (x ∷ queries) query) (sym ((==_iff q query).0 e))
          (first-Asked seen queries query f)
    | inr e ↦ rest-Asked seen queries q query (new_queries-covers queries query (ground arith) f)
  ]

  -- A round of calls that is not a regeneration has at most AGENT_MAX_SUB_QUERIES + 2 calls, which
  -- are all run, and at most two of them are not corpus searches.
  pub coverage_bounds :
      {F : Type 0} (max_queries : ℕ) (calls : List ToolCall) (queries : List Text)
      (history : List (Feedback F))
      → is_regenerate history ≡ false
      → (let chosen = ensure_corpus_coverage lower max_queries calls queries history in
          (run_calls max_queries chosen ≡ chosen)
          × (length (keep_if (λ c. not (is_corpus c)) chosen) ≤ 2))
  unfolding ensure_corpus_coverage external
  coverage_bounds max_queries calls queries history h =
      rw (h, ensure_corpus_coverage)
        (
          take_all (max_queries + 2) chosen (
              ground (
                arith,
                length-append asked others,
                length-map corpus_call (take max_queries fresh),
                length-take-le max_queries fresh,
                length-take-le 2 outside,
              )),
          rw
              (
                keep_if-append (λ c. not (is_corpus c)) asked others,
                no_corpus (take max_queries fresh),
              )
              (omega
                (arith, length-keep_if (λ c. not (is_corpus c)) others, length-take-le 2 outside)),
        )
    where
      fresh : List Text
      fresh = new_queries lower [] queries

      outside : List ToolCall
      outside = keep_if (λ c. not (c.name == retrieval_tool)) calls

      asked : List ToolCall
      asked = map corpus_call (take max_queries fresh)

      others : List ToolCall
      others = take 2 outside

      chosen : List ToolCall
      chosen = asked ++ others

      no_corpus : (qs : List Text) → keep_if (λ c. not (is_corpus c)) (map corpus_call qs) ≡ []
      no_corpus [] = refl
      no_corpus (q ∷ qs) = no_corpus qs

  length-new_queries :
      (seen queries : List Text) → length (new_queries lower seen queries) ≤ length queries
  unfolding new_queries
  length-new_queries seen [] = omega arith
  length-new_queries seen (q ∷ queries) =
      elim (Bool-cases (not (is_empty (strip q)) && not (mem (lower (strip q)) seen))) [
        | inl e ↦
            rw (e, new_queries) (omega (arith, length-new_queries (lower (strip q) ∷ seen) queries))
        | inr e ↦ rw (e, new_queries) (omega (arith, length-new_queries seen queries))
      ]

  -- A round that is not a regeneration, on a plan of at most AGENT_MAX_SUB_QUERIES queries, searches
  -- the corpus for every query of the plan that is not blank, up to case, and for none twice.
  pub coverage_asks :
      {F : Type 0} (max_queries : ℕ) (calls : List ToolCall) (queries : List Text)
      (history : List (Feedback F))
      → is_regenerate history ≡ false
      → length queries ≤ max_queries
      → (let asked =
            map lower
              (corpus_queries (ensure_corpus_coverage lower max_queries calls queries history)) in
          Unique asked
          × ((query : Text)
              → mem query queries ≡ true
              → is_empty (strip query) ≡ false
              → mem (lower (strip query)) asked ≡ true))
  unfolding ensure_corpus_coverage external
  coverage_asks max_queries calls queries history h few =
      rw
        (
          h,
          ensure_corpus_coverage,
          corpus_queries-coverage (take max_queries (new_queries lower [] queries)) calls 2,
          take_all max_queries (new_queries lower [] queries)
              (omega (arith, length-new_queries [] queries)),
        )
        ((new_queries-Unique [] queries).0, λ query m f. new_queries-covers queries query m f [])
