-- ===== src/Agent/Executor/Collect.antt =====
-- agent/nodes/tool_executor_node.py: the pool that `_collect_result` fills, as a set of texts.
use indic_rag.Agent.{Passage, LogEntry}
use indic_rag.Agent.Executor.{
  Completed, Pool, add_passage, add_passages, with_retriever, tool_passage, failure_text,
  add_result, collect_result, collect_all,
}
use indic_rag.Base.{
  ==_iff, Bool, Bool-cases, Eq, List, Option, String, Text, Unique, [], append-nil, append_assoc,
  arith, codes, false, inl, inr, map, map-append, mem, mem-append, none, or_else, refl, some, subst,
  sym, ◌++◌, ◌||◌, ◌∙◌, ◌∷◌, ◌≡◌, nat_eq, string_eq, pair_eq, list_eq,
}

-- the texts of a result: its passages, its text, or the report of its failure
unfoldable pub texts_of : Completed → List Text
texts_of c = elim c.result.error [
  | some message ↦ failure_text c.name message ∷ []
  | none ↦ elim c.result.passages [
    | some ps ↦ map (λ (p : Passage). p.content) ps
    | none ↦ or_else c.result.text (failure_text c.name (codes "no results returned")) ∷ []
  ]
]

module _ {D : Type 0} ⦃e : Eq D⦄ (digest : Text → D) where
  abbrev pub digests : List Passage → List D
  digests ps = map (λ (p : Passage). digest p.content) ps

  -- the digest is that of a passage of the pool
  abbrev pub pooled : D → Pool digest → Bool
  pooled d pool = mem d (digests pool.contexts)

  -- the texts of the pool are different, and they are those that have been seen
  abbrev pub Distinct : Pool digest → Type 0
  Distinct pool =
      Unique (digests pool.contexts) × ((d : D) → mem d pool.seen_hashes ≡ pooled d pool)

  digests-append : (ps qs : List Passage) → digests (ps ++ qs) ≡ digests ps ++ digests qs
  digests-append [] qs = refl
  digests-append (p ∷ ps) qs = λ i. digest p.content ∷ digests-append ps qs i

  append_new-Unique : (ds : List D) (d : D) → Unique ds → mem d ds ≡ false → Unique (ds ++ d ∷ [])
  append_new-Unique [] d u h = (refl, tt)
  append_new-Unique (c ∷ ds) d u h =
      ground (arith, append_new-Unique ds d, mem-append c ds (d ∷ []), e.beq_iff c d, e.beq_iff d c)

  -- what adding texts of these digests does to a pool
  abbrev Adds : List D → Pool digest → Pool digest → Type 0
  Adds ds pool pool' =
      Distinct pool'
      × ((d : D) → pooled d pool' ≡ (pooled d pool || mem d ds))
      × (pool'.log ≡ pool.log)

  add_passage-Adds :
      (p : Passage) (pool : Pool digest)
      → Distinct pool
      → Adds (digest p.content ∷ []) pool (add_passage digest p pool)
  unfolding add_passage
  add_passage-Adds p pool (u, h) = elim (Bool-cases (mem (digest p.content) pool.seen_hashes)) [
    | inl e ↦
        rw (e, add_passage)
          (
            (u, h),
            λ d. ground (arith, h d, ==_iff (digest p.content) d, h (digest p.content)),
            refl,
          )
    | inr e ↦
        rw (e, add_passage)
          (
            (
              rw (digests-append pool.contexts (p ∷ [])) (
                  append_new-Unique (digests pool.contexts) (digest p.content) u
                    (sym (h (digest p.content)) ∙ e)),
              λ d.
                  rw
                    (
                      digests-append pool.contexts (p ∷ []),
                      mem-append d (digests pool.contexts) (digest p.content ∷ []),
                    )
                    (ground (arith, h d)),
            ),
            λ d.
                rw
                  (
                    digests-append pool.contexts (p ∷ []),
                    mem-append d (digests pool.contexts) (digest p.content ∷ []),
                  )
                  refl,
            refl,
          )
  ]

  add_passages-Adds :
      (name : String) (ps : List Passage) (pool : Pool digest)
      → Distinct pool
      → Adds (digests ps) pool (add_passages digest name ps pool)
  unfolding add_passages
  add_passages-Adds name [] pool h = (h, λ d. ground arith, refl)
  add_passages-Adds name (p ∷ ps) pool h =
      let (h1, m1, l1) = add_passage-Adds (with_retriever name p) pool h in
      let (h2, m2, l2) =
        add_passages-Adds name ps (add_passage digest (with_retriever name p) pool) h1 in
      (h2, λ d. ground (arith, m1 d, m2 d), l2 ∙ l1)

  abbrev pub text_digests : Completed → List D
  text_digests c = map digest (texts_of c)

  digests-map : (ps : List Passage) → map digest (map (λ (p : Passage). p.content) ps) ≡ digests ps
  digests-map [] = refl
  digests-map (p ∷ ps) = λ i. digest p.content ∷ digests-map ps i

  add_result-Adds :
      (c : Completed) (pool : Pool digest)
      → Distinct pool
      → Adds (text_digests c) pool (add_result digest c pool)
  unfolding add_result texts_of
  add_result-Adds c pool h = by_parts c.result.error c.result.passages c.result.text
    where
      returning : Option Text → Option (List Passage) → Option Text → Completed
      returning er ps t = record c { result = record { error = er; passages = ps; text = t } }

      by_parts :
          (er : Option Text) (ps : Option (List Passage)) (t : Option Text)
          → Adds
              (text_digests (returning er ps t))
              pool
              (add_result digest (returning er ps t) pool)
      by_parts (some m) ps t = add_passage-Adds (tool_passage c.name (failure_text c.name m)) pool h
      by_parts none (some ps) t =
          subst (λ ds. Adds ds pool (add_passages digest c.name ps pool)) (sym (digests-map ps))
            (add_passages-Adds c.name ps pool h)
      by_parts none none (some t) = add_passage-Adds (tool_passage c.name t) pool h
      by_parts none none none =
          add_passage-Adds (tool_passage c.name (failure_text c.name (codes "no results returned")))
            pool h

  -- the results of a whole round
  abbrev pub all_digests : List Completed → List D
  all_digests [] = []
  all_digests (c ∷ cs) = text_digests c ++ all_digests cs

  -- Collecting the results of a round into a pool without repetitions leaves none: its passages are
  -- the texts that it had and those of the results, each once, and the log has one more entry for
  -- every result.
  pub collect_all-pool :
      (cs : List Completed) (pool : Pool digest)
      → Distinct pool
      → Unique (digests (collect_all digest cs pool).contexts)
        × ((d : D)
            → pooled d (collect_all digest cs pool) ≡ (pooled d pool || mem d (all_digests cs)))
        × (map (λ (l : LogEntry). l.tool) (collect_all digest cs pool).log
            ≡ map (λ (l : LogEntry). l.tool) pool.log ++ map (λ (c : Completed). c.name) cs)
  unfolding collect_all collect_result
  collect_all-pool [] pool h =
      (h.0, λ d. ground arith, sym (append-nil (map (λ (l : LogEntry). l.tool) pool.log)))
  collect_all-pool (c ∷ cs) pool h =
      let (distinct, added, logged) = add_result-Adds c pool h in
      let (u, m, l) = collect_all-pool cs (collect_result digest c pool) distinct in
      (
        u,
        λ d. rw (mem-append d (text_digests c) (all_digests cs)) (ground (arith, added d, m d)),
        rw (l, map-append (λ (l : LogEntry). l.tool), logged, append_assoc) refl,
      )
