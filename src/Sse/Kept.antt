-- ===== src/Sse/Kept.antt =====
-- sse_utils.py: what holds between the thread, the event loop, the queue and the reader.
use indic_rag.Sse.{
  Event, Producer, Reader, Bridge, capacity, chunk, error, done, streaming, sending_error,
  sending_done, released, reading, answered, interrupted, empty_handed,
}
use indic_rag.Base.{
  Bool, List, Text, [], arith, false, is_empty, length, ltb, nat_beq, not, refl, suc, true, ℕ, ◌++◌,
  ◌+◌, ◌||◌, ◌∷◌, ◌≡◌, ◌≤◌,
}

-- how many chunks and how many terminal events are on their way
unfoldable pub chunks : List Event → ℕ
chunks [] = 0
chunks (chunk text ∷ es) = suc (chunks es)
chunks (error text ∷ es) = chunks es
chunks (done ∷ es) = chunks es

unfoldable pub terminals : List Event → ℕ
terminals [] = 0
terminals (chunk text ∷ es) = terminals es
terminals (error text ∷ es) = suc (terminals es)
terminals (done ∷ es) = suc (terminals es)

-- no chunk behind a terminal event
unfoldable pub is_ordered : List Event → Bool
unfolding chunks
is_ordered [] = true
is_ordered (chunk text ∷ es) = is_ordered es
is_ordered (error text ∷ es) = nat_beq (chunks es) 0
is_ordered (done ∷ es) = nat_beq (chunks es) 0

pub chunks-append : (xs ys : List Event) → chunks (xs ++ ys) ≡ chunks xs + chunks ys
unfolding chunks
chunks-append [] ys = omega arith
chunks-append (chunk text ∷ xs) ys = omega (arith, chunks-append xs ys)
chunks-append (error text ∷ xs) ys = chunks-append xs ys
chunks-append (done ∷ xs) ys = chunks-append xs ys

pub terminals-append : (xs ys : List Event) → terminals (xs ++ ys) ≡ terminals xs + terminals ys
unfolding terminals
terminals-append [] ys = omega arith
terminals-append (chunk text ∷ xs) ys = terminals-append xs ys
terminals-append (error text ∷ xs) ys = omega (arith, terminals-append xs ys)
terminals-append (done ∷ xs) ys = omega (arith, terminals-append xs ys)

pub chunks_more : (es : List Event) (text : Text) → chunks (es ++ chunk text ∷ []) ≡ chunks es + 1
unfolding chunks
chunks_more es text = chunks-append es (chunk text ∷ [])

pub terminals_same :
    (es : List Event) (text : Text) → terminals (es ++ chunk text ∷ []) ≡ terminals es
unfolding terminals
terminals_same es text = ground (arith, terminals-append es (chunk text ∷ []))

pub chunks_same :
    (es : List Event) (e : Event) → chunks (e ∷ []) ≡ 0 → chunks (es ++ e ∷ []) ≡ chunks es
chunks_same es e h = ground (arith, chunks-append es (e ∷ []), h)

-- a chunk behind chunks, and a terminal event behind anything in order
pub is_ordered-chunk :
    (es : List Event) (text : Text) → terminals es ≡ 0 → is_ordered (es ++ chunk text ∷ []) ≡ true
unfolding is_ordered terminals
is_ordered-chunk [] text h = refl
is_ordered-chunk (chunk t ∷ es) text h = is_ordered-chunk es text h
is_ordered-chunk (error t ∷ es) text h = absurd (omega (arith, h))
is_ordered-chunk (done ∷ es) text h = absurd (omega (arith, h))

pub is_ordered-terminal :
    (es : List Event) (e : Event)
    → chunks (e ∷ []) ≡ 0
    → is_ordered es ≡ true
    → is_ordered (es ++ e ∷ []) ≡ true
unfolding is_ordered
is_ordered-terminal [] (chunk t) c h = refl
is_ordered-terminal [] (error t) c h = h
is_ordered-terminal [] done c h = h
is_ordered-terminal (chunk t ∷ es) e c h = is_ordered-terminal es e c h
is_ordered-terminal (error t ∷ es) e c h = ground (arith, h, c, chunks-append es (e ∷ []))
is_ordered-terminal (done ∷ es) e c h = ground (arith, h, c, chunks-append es (e ∷ []))

pub chunks_one : (text : Text) (es : List Event) → chunks (chunk text ∷ es) ≡ suc (chunks es)
unfolding chunks
chunks_one text es = refl

-- Before a chunk that waits on the loop stand chunks alone.
pub terminals-before :
    (es rest : List Event) (text : Text)
    → is_ordered (es ++ chunk text ∷ rest) ≡ true
    → terminals es ≡ 0
unfolding is_ordered terminals
terminals-before [] rest text h = refl
terminals-before (chunk t ∷ es) rest text h = terminals-before es rest text h
terminals-before (error t ∷ es) rest text h =
    absurd (ground (arith, h, chunks-append es (chunk text ∷ rest), chunks_one text rest))
terminals-before (done ∷ es) rest text h =
    absurd (ground (arith, h, chunks-append es (chunk text ∷ rest), chunks_one text rest))

-- what is on its way from the thread to the reader
abbrev pub pending : Bridge → List Event
pending b = b.queue ++ b.loop

-- While the thread is in its loop, no terminal event is on its way and the reader reads; behind the
-- loop the stream is used up, unless the response has been closed.
abbrev pub IsAtStage : Producer → Reader → Bool → List Text → ℕ → Type 0
IsAtStage streaming reader stopped todo n = (n ≡ 0) × (reader ≡ reading)
IsAtStage sending_error reader stopped todo n = (stopped || is_empty todo) ≡ true
IsAtStage sending_done reader stopped todo n = (stopped || is_empty todo) ≡ true
IsAtStage released reader stopped todo n = (stopped || is_empty todo) ≡ true

-- A reader that has left without an answer has missed nothing.
abbrev pub is_empty_handed : Reader → Bool
is_empty_handed reading = false
is_empty_handed answered = false
is_empty_handed interrupted = false
is_empty_handed empty_handed = true

abbrev pub held_slots : Producer → ℕ
held_slots streaming = 1
held_slots sending_error = 1
held_slots sending_done = 1
held_slots released = 0

pub record IsKept (texts : List Text) (slots : ℕ) (b : Bridge) : Type 0 where
  pub whole : b.produced ++ b.todo ≡ texts
  pub ordered : is_ordered (pending b) ≡ true
  pub stage : IsAtStage b.producer b.reader b.stopped b.todo (terminals (pending b))
  pub counted : length b.received + b.dropped + chunks (pending b) ≡ length b.produced
  pub fed : (is_empty b.produced || not (is_empty b.received) || ltb 0 (chunks (pending b))) ≡ true
  pub missed : (not (is_empty_handed b.reader) || is_empty b.produced) ≡ true
  pub bounded : length b.queue ≤ capacity
  pub slot : b.slots + held_slots b.producer ≡ slots
