-- ===== src/Sse/Whole.antt =====
-- sse_utils.py: the steps of the bridge keep what `IsKept` says, and what the reader ends with.
use indic_rag.Sse.{
  Event, Producer, Bridge, end_stream, offer_chunk, next_chunk, produce, chunk, error, done,
  streaming, sending_error, sending_done, released,
}
use indic_rag.Sse.Kept.{
  chunks, terminals, chunks_more, terminals_same, chunks_same, is_ordered-chunk,
  is_ordered-terminal, pending, IsAtStage, held_slots, IsKept,
}
use indic_rag.Base.{
  Bool-cases, List, Option, Text, [], ap, append_assoc, arith, false, if◌then◌else◌, inl, inr,
  is_empty, length-append, none, refl, some, subst, sym, true, ℕ, ◌++◌, ◌+◌, ◌||◌, ◌∙◌, ◌∷◌, ◌≡◌,
}

module _ (texts : List Text) (slots : ℕ) where
  -- a chunk is handed over
  pub offer_chunk-IsKept :
      (text : Text) (rest : List Text) (b : Bridge)
      → IsKept texts slots b
      → b.producer ≡ streaming
      → b.todo ≡ text ∷ rest
      → IsKept texts slots (offer_chunk text rest b)
  unfolding offer_chunk
  offer_chunk-IsKept text rest b k p t =
      let stage =
        subst (λ x. IsAtStage x b.reader b.stopped b.todo (terminals (pending b))) p k.stage in
      let longer = append_assoc b.queue b.loop (chunk text ∷ []) in
      record {
        whole =
            append_assoc b.produced (text ∷ []) rest ∙ ap (λ l. b.produced ++ l) (sym t) ∙ k.whole;
        ordered = rw (sym longer) (is_ordered-chunk (pending b) text stage.0);
        stage =
            subst
              (λ x.
                IsAtStage x b.reader b.stopped rest
                  (terminals (b.queue ++ (b.loop ++ chunk text ∷ []))))
              (sym p)
              (ap terminals (sym longer) ∙ terminals_same (pending b) text ∙ stage.0, stage.1);
        counted =
            rw (sym longer, chunks_more (pending b) text, length-append b.produced (text ∷ []))
              (omega (arith, k.counted));
        fed = rw (sym longer, chunks_more (pending b) text) (ground arith);
        missed = rw (stage.1) refl;
        bounded = k.bounded;
        slot = k.slot;
      }

  -- a terminal event is handed over
  pub send-IsKept :
      (e : Event) (next : Producer) (b : Bridge)
      → IsKept texts slots b
      → chunks (e ∷ []) ≡ 0
      → IsAtStage next b.reader b.stopped b.todo (terminals (b.queue ++ (b.loop ++ e ∷ [])))
      → held_slots next ≡ held_slots b.producer
      → IsKept texts slots (record b { producer = next; loop = b.loop ++ e ∷ [] })
  send-IsKept e next b k c stage held =
      let longer = append_assoc b.queue b.loop (e ∷ []) in
      record {
        whole = k.whole;
        ordered = rw (sym longer) (is_ordered-terminal (pending b) e c k.ordered);
        stage = stage;
        counted = rw (sym longer, chunks_same (pending b) e c) k.counted;
        fed = rw (sym longer, chunks_same (pending b) e c) k.fed;
        missed = k.missed;
        bounded = k.bounded;
        slot = rw (held) k.slot;
      }

  -- the thread leaves its loop
  pub end_stream-IsKept :
      (o : Option Text) (b : Bridge)
      → IsKept texts slots b
      → b.producer ≡ streaming
      → (b.stopped || is_empty b.todo) ≡ true
      → IsKept texts slots (end_stream o b)
  unfolding end_stream chunks
  end_stream-IsKept none b k p h = send-IsKept done sending_done b k refl h (ap held_slots (sym p))
  end_stream-IsKept (some exc) b k p h =
      send-IsKept (error exc) sending_error b k refl h (ap held_slots (sym p))

  pub next_chunk-IsKept :
      (l : List Text) (b : Bridge)
      → IsKept texts slots b
      → b.producer ≡ streaming
      → b.todo ≡ l
      → IsKept texts slots (next_chunk l b)
  unfolding next_chunk
  next_chunk-IsKept [] b k p t = end_stream-IsKept b.fails b k p (ground (arith, t))
  next_chunk-IsKept (text ∷ rest) b k p t = elim (Bool-cases b.stopped) [
    | inl e ↦
        subst (IsKept texts slots) (sym (stops e))
          (end_stream-IsKept none b k p (ground (arith, e)))
    | inr e ↦ subst (IsKept texts slots) (sym (goes e)) (offer_chunk-IsKept text rest b k p t)
  ]
    where
      stops : b.stopped ≡ true → next_chunk (text ∷ rest) b ≡ end_stream none b
      stops e = ap (λ x. if x then end_stream none b else offer_chunk text rest b) e

      goes : b.stopped ≡ false → next_chunk (text ∷ rest) b ≡ offer_chunk text rest b
      goes e = ap (λ x. if x then end_stream none b else offer_chunk text rest b) e

  pub produce-IsKept :
      (p : Producer) (b : Bridge)
      → IsKept texts slots b
      → b.producer ≡ p
      → IsKept texts slots (produce p b)
  unfolding produce chunks
  produce-IsKept streaming b k p = next_chunk-IsKept b.todo b k p refl
  produce-IsKept sending_error b k p =
      send-IsKept done sending_done b k refl
        (subst (λ x. IsAtStage x b.reader b.stopped b.todo (terminals (pending b))) p k.stage)
        (ap held_slots (sym p))
  produce-IsKept sending_done b k p = record {
    whole = k.whole;
    ordered = k.ordered;
    stage = subst (λ x. IsAtStage x b.reader b.stopped b.todo (terminals (pending b))) p k.stage;
    counted = k.counted;
    fed = k.fed;
    missed = k.missed;
    bounded = k.bounded;
    slot = omega (arith, subst (λ x. b.slots + held_slots x ≡ slots) p k.slot);
  }
  produce-IsKept released b k p = k
