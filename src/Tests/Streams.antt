-- ===== src/Tests/Streams.antt =====
-- A stream that breaks, read to its end, and one whose reader leaves.
use indic_rag.Sse.{
  Bridge, start, end_stream, offer_chunk, next_chunk, produce, put_nowait, put, run_callback,
  receive, read, Step, step, run, join, assembled, interrupted, thread, callback, reads,
}
use indic_rag.Sse.Answer.{is_reading, assembled_whole}
use indic_rag.Base.{List, Text, [], codes, false, refl, some, ◌∷◌, ◌≡◌}

abbrev texts : List Text
texts = codes "One " ∷ codes "two" ∷ []

-- both chunks, the error and `done`, each put into the queue at once and read
abbrev schedule : List Step
schedule =
    thread ∷ callback ∷ reads ∷ thread ∷ callback ∷ reads ∷ thread ∷ callback ∷ reads ∷ thread ∷ []

abbrev ended : Bridge
ended = run schedule (start texts (some (codes "reset")) 7)

ended_interrupted : ended.reader ≡ interrupted
unfolding run step produce next_chunk offer_chunk end_stream run_callback put put_nowait read
    receive
ended_interrupted = refl

ended_left : is_reading ended.reader ≡ false
unfolding run step produce next_chunk offer_chunk end_stream run_callback put put_nowait read
    receive
ended_left = refl

ended_open : ended.stopped ≡ false
unfolding run step produce next_chunk offer_chunk end_stream run_callback put put_nowait read
    receive
ended_open = refl

assembled_whole_example : assembled ended ≡ join texts
assembled_whole_example =
    assembled_whole texts (some (codes "reset")) 7 schedule ended_left ended_open
