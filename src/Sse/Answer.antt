-- ===== src/Sse/Answer.antt =====
-- sse_utils.py: the text that the reader ends with.
use indic_rag.Sse.{
  Producer, Reader, Bridge, start, Step, run, join, assembled, streaming, sending_error,
  sending_done, released, reading, answered, interrupted, empty_handed,
}
use indic_rag.Sse.Kept.{chunks, terminals, pending, IsAtStage, IsKept}
use indic_rag.Sse.Reading.{run-IsKept, start-IsKept}
use indic_rag.Base.{
  Bool, List, Option, Text, [], ap, append-nil, arith, false, if◌then◌else◌, is_empty, length, refl,
  sym, true, ℕ, ◌++◌, ◌+◌, ◌||◌, ◌∙◌, ◌∷◌, ◌≡◌,
}

abbrev pub is_reading : Reader → Bool
is_reading reading = true
is_reading answered = false
is_reading interrupted = false
is_reading empty_handed = false

stage_left :
    (p : Producer) (r : Reader) (stopped : Bool) (todo : List Text) (n : ℕ)
    → IsAtStage p r stopped todo n
    → is_reading r ≡ false
    → (stopped || is_empty todo) ≡ true
stage_left streaming r stopped todo n h left = absurd (ground (arith, left, h.1))
stage_left sending_error r stopped todo n h left = h
stage_left sending_done r stopped todo n h left = h
stage_left released r stopped todo n h left = h

empty_nil : (xs : List Text) → is_empty xs ≡ true → xs ≡ []
empty_nil [] h = refl
empty_nil (x ∷ xs) h = absurd (ground (arith, h))

short_nil : (xs : List Text) (n : ℕ) → length xs + n ≡ 0 → xs ≡ []
short_nil [] n h = refl
short_nil (x ∷ xs) n h = absurd (omega (arith, h))

assembled_kept :
    (texts : List Text) (slots : ℕ) (b : Bridge)
    → IsKept texts slots b
    → is_reading b.reader ≡ false
    → b.stopped ≡ false
    → assembled b ≡ join texts
unfolding assembled
assembled_kept texts slots b k left open_still = by_produced (is_empty b.produced) refl
  where
    used : b.todo ≡ []
    used = empty_nil b.todo (
        ground (
          arith,
          open_still,
          stage_left b.producer b.reader b.stopped b.todo (terminals (pending b)) k.stage left,
        ))

    all : b.produced ≡ texts
    all = sym (append-nil b.produced) ∙ ap (λ l. b.produced ++ l) (sym used) ∙ k.whole

    by_produced :
        (x : Bool)
        → is_empty b.produced ≡ x
        → (if x then join b.received else join b.produced) ≡ join texts
    by_produced false e = ap join all
    by_produced true e =
        let nil = empty_nil b.produced e in
        let count : length b.received + b.dropped + chunks (pending b) ≡ 0 =
          k.counted ∙ ap length nil in
        ap join (short_nil b.received (b.dropped + chunks (pending b)) (omega (arith, count)))
        ∙ ap join (sym nil ∙ all)

-- When the reader is behind its loop, by `done` or by an error, and the response has not been closed
-- before, the text that is compacted, cited and stored is the whole text of the model's stream,
-- whatever the queue has dropped for a slow reader.
pub assembled_whole :
    (texts : List Text) (fails : Option Text) (slots : ℕ) (steps : List Step)
    → is_reading (run steps (start texts fails slots)).reader ≡ false
    → (run steps (start texts fails slots)).stopped ≡ false
    → assembled (run steps (start texts fails slots)) ≡ join texts
assembled_whole texts fails slots steps left open_still =
    assembled_kept texts (slots + 1) (run steps (start texts fails slots))
      (run-IsKept texts (slots + 1) steps (start texts fails slots)
        (start-IsKept texts fails slots))
      left open_still
