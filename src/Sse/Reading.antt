-- ===== src/Sse/Reading.antt =====
-- sse_utils.py: the reader's steps and whole runs of the bridge.
use indic_rag.Sse.{
  Event, Producer, Reader, Bridge, capacity, start, receive, read, Step, step, run, chunk, error,
  done, streaming, sending_error, sending_done, released, reading, answered, interrupted,
  empty_handed, thread, callback, reads, disconnect,
}
use indic_rag.Sse.Kept.{chunks, terminals, is_ordered, pending, IsAtStage, is_empty_handed, IsKept}
use indic_rag.Sse.Whole.{produce-IsKept}
use indic_rag.Sse.Queueing.{run_callback-IsKept}
use indic_rag.Base.{
  ap, ◌∙◌, sym, Bool, List, Option, Text, [], arith, false, if◌then◌else◌, is_empty, length,
  length-append, ltb, nat_beq, not, refl, subst, suc, true, ℕ, ◌++◌, ◌+◌, ◌||◌, ◌∷◌, ◌≡◌, ◌≤◌,
}

is_ordered_without : (es : List Event) → chunks es ≡ 0 → is_ordered es ≡ true
unfolding chunks is_ordered
is_ordered_without [] h = refl
is_ordered_without (chunk text ∷ es) h = absurd (omega (arith, h))
is_ordered_without (error text ∷ es) h = ground (arith, h)
is_ordered_without (done ∷ es) h = ground (arith, h)

-- Behind a terminal event the stage does not depend on the reader.
IsAtStage-behind :
    (p : Producer) (r next : Reader) (stopped : Bool) (todo : List Text) (n m : ℕ)
    → IsAtStage p r stopped todo (suc n)
    → IsAtStage p next stopped todo m
IsAtStage-behind streaming r next stopped todo n m h = absurd (omega (arith, h.0))
IsAtStage-behind sending_error r next stopped todo n m h = h
IsAtStage-behind sending_done r next stopped todo n m h = h
IsAtStage-behind released r next stopped todo n m h = h

is_empty_more : (xs : List Text) (x : Text) → is_empty (xs ++ x ∷ []) ≡ false
is_empty_more [] x = refl
is_empty_more (y ∷ xs) x = refl

module _ (texts : List Text) (slots : ℕ) where
  -- a terminal event is taken
  behind-IsKept :
      (e : Event) (queue : List Event) (next : Reader) (b : Bridge)
      → IsKept texts slots b
      → b.queue ≡ e ∷ queue
      → ((es : List Event) → chunks (e ∷ es) ≡ chunks es)
      → ((es : List Event) → terminals (e ∷ es) ≡ suc (terminals es))
      → ((es : List Event) → is_ordered (e ∷ es) ≡ nat_beq (chunks es) 0)
      → (not (is_empty_handed next) || is_empty b.produced) ≡ true
      → IsKept texts slots (record b { queue = queue; reader = next })
  behind-IsKept e queue next b k q c t o m =
      let rest = queue ++ b.loop in
      let all : pending b ≡ e ∷ rest = λ i. q i ++ b.loop in
      let on_way : chunks (pending b) ≡ chunks rest = ap chunks all ∙ c rest in
      let last : nat_beq (chunks rest) 0 ≡ true = sym (ap is_ordered all ∙ o rest) ∙ k.ordered in
      record {
        whole = k.whole;
        ordered = is_ordered_without rest (ground (arith, last));
        stage = IsAtStage-behind b.producer b.reader next b.stopped b.todo (terminals rest) _ (
            subst (IsAtStage b.producer b.reader b.stopped b.todo) (ap terminals all ∙ t rest)
              k.stage);
        counted =
            subst (λ x. length b.received + b.dropped + x ≡ length b.produced) on_way k.counted;
        fed =
            subst (λ x. (is_empty b.produced || not (is_empty b.received) || ltb 0 x) ≡ true) on_way
              k.fed;
        missed = m;
        bounded = omega (arith, subst (λ x. length x ≤ capacity) q k.bounded);
        slot = k.slot;
      }

  taken-IsKept :
      (e : Event) (queue : List Event) (next : Reader) (b : Bridge)
      → IsKept texts slots b
      → b.queue ≡ e ∷ queue
      → chunks (e ∷ []) ≡ 0
      → (not (is_empty_handed next) || is_empty b.produced) ≡ true
      → IsKept texts slots (record b { queue = queue; reader = next })
  unfolding chunks terminals is_ordered
  taken-IsKept (chunk text) queue next b k q c m = absurd (omega (arith, c))
  taken-IsKept (error text) queue next b k q c m =
      behind-IsKept (error text) queue next b k q (λ es. refl) (λ es. refl) (λ es. refl) m
  taken-IsKept done queue next b k q c m =
      behind-IsKept done queue next b k q (λ es. refl) (λ es. refl) (λ es. refl) m

  -- a chunk is taken
  received-IsKept :
      (text : Text) (queue : List Event) (b : Bridge)
      → IsKept texts slots b
      → b.queue ≡ chunk text ∷ queue
      → IsKept texts slots (record b { queue = queue; received = b.received ++ text ∷ [] })
  unfolding chunks terminals is_ordered
  received-IsKept text queue b k q =
      let all : pending b ≡ chunk text ∷ (queue ++ b.loop) = λ i. q i ++ b.loop in
      let counted : length b.received + b.dropped + suc (chunks (queue ++ b.loop))
          ≡ length b.produced =
        subst (λ x. length b.received + b.dropped + chunks x ≡ length b.produced) all k.counted in
      record {
        whole = k.whole;
        ordered = subst (λ x. is_ordered x ≡ true) all k.ordered;
        stage =
            subst (λ x. IsAtStage b.producer b.reader b.stopped b.todo (terminals x)) all k.stage;
        counted = rw (length-append b.received (text ∷ [])) (omega (arith, counted));
        fed = rw (is_empty_more b.received text) (ground arith);
        missed = k.missed;
        bounded = omega (arith, subst (λ x. length x ≤ capacity) q k.bounded);
        slot = k.slot;
      }

  pub read-IsKept :
      (r : Reader) (queue : List Event) (b : Bridge)
      → IsKept texts slots b
      → b.reader ≡ r
      → b.queue ≡ queue
      → IsKept texts slots (read r queue b)
  unfolding read receive chunks is_ordered
  read-IsKept reading [] b k r q = k
  read-IsKept answered queue b k r q = k
  read-IsKept interrupted queue b k r q = k
  read-IsKept empty_handed queue b k r q = k
  read-IsKept reading (chunk text ∷ queue) b k r q = received-IsKept text queue b k q
  read-IsKept reading (done ∷ queue) b k r q = taken-IsKept done queue answered b k q refl refl
  read-IsKept reading (error text ∷ queue) b k r q =
      taken-IsKept (error text) queue (if is_empty b.received then empty_handed else interrupted) b
        k q refl (nothing_missed (queue ++ b.loop) (λ i. q i ++ b.loop))
    where
      nothing_missed :
          (es : List Event)
          → pending b ≡ error text ∷ es
          → (not (is_empty_handed (if is_empty b.received then empty_handed else interrupted))
              || is_empty b.produced)
            ≡ true
      nothing_missed es all =
          let none_left : nat_beq (chunks es) 0 ≡ true =
            subst (λ x. is_ordered x ≡ true) all k.ordered in
          let fed : (is_empty b.produced || not (is_empty b.received) || ltb 0 (chunks es)) ≡ true =
            subst
              (λ x. (is_empty b.produced || not (is_empty b.received) || ltb 0 (chunks x)) ≡ true)
              all k.fed in
          ground (arith, none_left, fed)

  pub step-IsKept : (s : Step) (b : Bridge) → IsKept texts slots b → IsKept texts slots (step s b)
  unfolding step
  step-IsKept thread b k = produce-IsKept texts slots b.producer b k refl
  step-IsKept callback b k = run_callback-IsKept texts slots b.loop b k refl
  step-IsKept reads b k = read-IsKept b.reader b.queue b k refl refl
  step-IsKept disconnect b k = record {
    whole = k.whole;
    ordered = k.ordered;
    stage = stopping b.producer k.stage;
    counted = k.counted;
    fed = k.fed;
    missed = k.missed;
    bounded = k.bounded;
    slot = k.slot;
  }
    where
      stopping :
          (p : Producer)
          → IsAtStage p b.reader b.stopped b.todo (terminals (pending b))
          → IsAtStage p b.reader true b.todo (terminals (pending b))
      stopping streaming h = h
      stopping sending_error h = refl
      stopping sending_done h = refl
      stopping released h = refl

  -- Whatever the order of the thread's, the event loop's and the reader's steps, and whenever the
  -- response is closed: the chunks that were read, that were dropped and that are on their way are as
  -- many as those produced, which are a beginning of the model's stream; no chunk is behind a terminal
  -- event, so that none of those is dropped; the queue holds 128 events at most; the thread gives its
  -- slot back exactly once, at its end; and a reader that leaves without an answer has missed none.
  pub run-IsKept :
      (steps : List Step) (b : Bridge) → IsKept texts slots b → IsKept texts slots (run steps b)
  unfolding run
  run-IsKept [] b k = k
  run-IsKept (s ∷ steps) b k = run-IsKept steps (step s b) (step-IsKept s b k)

pub start-IsKept :
    (texts : List Text) (fails : Option Text) (slots : ℕ)
    → IsKept texts (slots + 1) (start texts fails slots)
unfolding is_ordered chunks terminals
start-IsKept texts fails slots = record {
  whole = refl;
  ordered = refl;
  stage = (refl, refl);
  counted = refl;
  fed = refl;
  missed = refl;
  bounded = omega arith;
  slot = refl;
}
