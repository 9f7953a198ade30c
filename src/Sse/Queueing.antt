-- ===== src/Sse/Queueing.antt =====
-- sse_utils.py: the steps of the event loop and of the reader keep what `IsKept` says.
use indic_rag.Sse.{
  Event, Bridge, capacity, is_full, put_nowait, drop_oldest, put, run_callback, chunk, error, done,
}
use indic_rag.Sse.Kept.{
  chunks, terminals, is_ordered, chunks-append, chunks_one, pending, IsAtStage, IsKept,
}
use indic_rag.Base.{
  Bool, List, Text, [], ap, append_assoc, arith, false, if◌then◌else◌, length, length-append,
  nat_beq, refl, subst, suc, sym, true, ℕ, ◌++◌, ◌+◌, ◌∙◌, ◌∷◌, ◌≡◌, ◌≤◌,
}

no_chunk_behind :
    (es rest : List Event) (text : Text) → nat_beq (chunks (es ++ chunk text ∷ rest)) 0 ≡ true → ⊥
no_chunk_behind es rest text h =
    ground (arith, h, chunks-append es (chunk text ∷ rest), chunks_one text rest)

module _ (texts : List Text) (slots : ℕ) where
  -- an event goes from the loop into the queue
  pub moved-IsKept :
      (e : Event) (rest : List Event) (b : Bridge)
      → IsKept texts slots b
      → b.loop ≡ e ∷ rest
      → is_full b.queue ≡ false
      → IsKept texts slots (record b { loop = rest; queue = b.queue ++ e ∷ [] })
  moved-IsKept e rest b k l f =
      let same = append_assoc b.queue (e ∷ []) rest ∙ ap (λ x. b.queue ++ x) (sym l) in
      record {
        whole = k.whole;
        ordered = rw (same) k.ordered;
        stage = rw (same) k.stage;
        counted = rw (same) k.counted;
        fed = rw (same) k.fed;
        missed = k.missed;
        bounded = ground (arith, f, length-append b.queue (e ∷ []));
        slot = k.slot;
      }

  -- a chunk goes into a full queue, whose oldest event is a chunk and is dropped
  pub displaced-IsKept :
      (old : Event) (queue : List Event) (text : Text) (rest : List Event) (b : Bridge)
      → IsKept texts slots b
      → b.loop ≡ chunk text ∷ rest
      → b.queue ≡ old ∷ queue
      → IsKept texts slots
          (record b { loop = rest; queue = queue ++ chunk text ∷ []; dropped = b.dropped + 1 })
  unfolding chunks terminals is_ordered
  displaced-IsKept (chunk t) queue text rest b k l q =
      let all : pending b ≡ chunk t ∷ (queue ++ chunk text ∷ rest) = (λ i. q i ++ l i) in
      let counted : length b.received + b.dropped + suc (chunks (queue ++ chunk text ∷ rest))
          ≡ length b.produced =
        subst (λ x. length b.received + b.dropped + chunks x ≡ length b.produced) all k.counted in
      let longer : suc (length queue) ≤ capacity = subst (λ x. length x ≤ capacity) q k.bounded in
      let same = append_assoc queue (chunk text ∷ []) rest in
      record {
        whole = k.whole;
        ordered = rw (same) (subst (λ x. is_ordered x ≡ true) all k.ordered);
        stage =
            rw (same) (
              subst (λ x. IsAtStage b.producer b.reader b.stopped b.todo (terminals x)) all
                k.stage);
        counted = rw (same) (omega (arith, counted));
        fed =
            rw (same, chunks-append queue (chunk text ∷ rest))
              (ground (arith, chunks_one text rest));
        missed = k.missed;
        bounded = ground (arith, longer, length-append queue (chunk text ∷ []));
        slot = k.slot;
      }
  displaced-IsKept (error t) queue text rest b k l q = absurd (
      no_chunk_behind queue rest text
        (subst (λ x. is_ordered x ≡ true) (λ i. q i ++ l i) k.ordered))
  displaced-IsKept done queue text rest b k l q = absurd (
      no_chunk_behind queue rest text
        (subst (λ x. is_ordered x ≡ true) (λ i. q i ++ l i) k.ordered))

  -- a terminal event waits for space
  wait-IsKept :
      (e : Event) (rest : List Event) (b : Bridge)
      → IsKept texts slots b
      → b.loop ≡ e ∷ rest
      → IsKept texts slots
          (if is_full b.queue then b else record b { loop = rest; queue = b.queue ++ e ∷ [] })
  wait-IsKept e rest b k l = by_full (is_full b.queue) (λ f. moved-IsKept e rest b k l f) refl
    where
      by_full :
          (x : Bool)
          → (is_full b.queue ≡ false
              → IsKept texts slots (record b { loop = rest; queue = b.queue ++ e ∷ [] }))
          → is_full b.queue ≡ x
          → IsKept texts slots
              (if x then b else record b { loop = rest; queue = b.queue ++ e ∷ [] })
      by_full true g f = k
      by_full false g f = g f

  pub put-IsKept :
      (e : Event) (rest : List Event) (b : Bridge)
      → IsKept texts slots b
      → b.loop ≡ e ∷ rest
      → IsKept texts slots (put e rest b)
  unfolding put put_nowait drop_oldest
  put-IsKept (error text) rest b k l = wait-IsKept (error text) rest b k l
  put-IsKept done rest b k l = wait-IsKept done rest b k l
  put-IsKept (chunk text) rest b k l = by_full (is_full b.queue) refl
    where
      waiting : Bridge
      waiting = record b { loop = rest }

      after : Bool → Bridge
      after x = put_nowait (chunk text) (if x then drop_oldest b.queue waiting else waiting)

      put_in : Bridge → Bool → Bridge
      put_in c x =
          if x
          then record c { dropped = c.dropped + 1 }
          else record c { queue = c.queue ++ chunk text ∷ [] }

      crowded :
          (old : Event) (queue : List Event)
          → b.queue ≡ old ∷ queue
          → is_full queue ≡ false
          → after true
            ≡ record b { loop = rest; queue = queue ++ chunk text ∷ []; dropped = b.dropped + 1 }
      crowded old queue q f =
          ap (λ x. put_nowait (chunk text) (drop_oldest x waiting)) q
          ∙ ap (put_in (record b { loop = rest; queue = queue; dropped = b.dropped + 1 })) f

      by_queue :
          (x : List Event) → is_full b.queue ≡ true → b.queue ≡ x → IsKept texts slots (after true)
      by_queue [] f q = absurd (ground (arith, f, q))
      by_queue (old ∷ queue) f q =
          let longer : suc (length queue) ≤ capacity =
            subst (λ x. length x ≤ capacity) q k.bounded in
          subst (IsKept texts slots) (sym (crowded old queue q (ground (arith, longer))))
            (displaced-IsKept old queue text rest b k l q)

      by_full : (x : Bool) → is_full b.queue ≡ x → IsKept texts slots (after (is_full b.queue))
      by_full true f = subst (λ x. IsKept texts slots (after x)) (sym f) (by_queue b.queue f refl)
      by_full false f =
          subst (IsKept texts slots) (sym (ap after f ∙ ap (put_in waiting) f))
            (moved-IsKept (chunk text) rest b k l f)

  pub run_callback-IsKept :
      (l : List Event) (b : Bridge)
      → IsKept texts slots b
      → b.loop ≡ l
      → IsKept texts slots (run_callback l b)
  unfolding run_callback
  run_callback-IsKept [] b k l = k
  run_callback-IsKept (e ∷ rest) b k l = put-IsKept e rest b k l
