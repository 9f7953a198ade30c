-- ===== src/Sse.antt =====
-- sse_utils.py: the bridge between the thread that produces an answer and the response that streams
-- it. The thread, the callbacks on the event loop and the reader run in any order: a run is a list of
-- their steps.
pub mod Kept
pub mod Whole
pub mod Queueing
pub mod Reading
pub mod Answer
use indic_rag.Base.{
  Bool, List, Option, Text, [], any, ap, codes, drop, false, if◌then◌else◌, is_empty, leb, length,
  max, min, none, not, some, true, ℕ, ◌*◌, ◌++◌, ◌+◌, ◌-◌, ◌∷◌,
}

-- what goes through the queue
pub data Event : Type 0 where
  chunk : Text → Event
  error : Text → Event
  done : Event

-- where `_run` is: in its loop, at the delivery of an error, at the delivery of `done`, or behind the
-- release of its slot
pub data Producer : Type 0 where
  streaming : Producer
  sending_error : Producer
  sending_done : Producer
  released : Producer

-- where the reader is: in its loop, or behind it, by `done`, by an error that it goes on from, or by
-- one that leaves it without an answer
pub data Reader : Type 0 where
  reading : Reader
  answered : Reader
  interrupted : Reader
  empty_handed : Reader

-- `todo` and `fails` are what is left of the model's stream; `loop` holds the callbacks that the
-- thread has handed to the event loop and that have not run, each by what it puts into the queue.
pub record Bridge : Type 0 where
  pub todo : List Text
  pub fails : Option Text
  pub producer : Producer
  pub stopped : Bool
  pub loop : List Event
  pub queue : List Event
  pub produced : List Text
  pub dropped : ℕ
  pub received : List Text
  pub reader : Reader
  pub slots : ℕ

-- `asyncio.Queue(maxsize=128)`
abbrev pub capacity : ℕ
capacity = 128

-- behind `_acquire_producer_slot`, which leaves `slots` free ones
abbrev pub start : List Text → Option Text → ℕ → Bridge
start texts fails slots = record {
  todo = texts;
  fails = fails;
  producer = streaming;
  stopped = false;
  loop = [];
  queue = [];
  produced = [];
  dropped = 0;
  received = [];
  reader = reading;
  slots = slots;
}

-- the end of the loop of `_run`, by what ends it
unfoldable pub end_stream : Option Text → Bridge → Bridge
end_stream none b = record b { producer = sending_done; loop = b.loop ++ done ∷ [] }
end_stream (some exc) b = record b { producer = sending_error; loop = b.loop ++ error exc ∷ [] }

-- `_offer_chunk`
unfoldable pub offer_chunk : Text → List Text → Bridge → Bridge
offer_chunk text rest b = record b {
  todo = rest;
  produced = b.produced ++ text ∷ [];
  loop = b.loop ++ chunk text ∷ [];
}

unfoldable pub next_chunk : List Text → Bridge → Bridge
unfolding end_stream offer_chunk
next_chunk [] b = end_stream b.fails b
next_chunk (text ∷ rest) b = if b.stopped then end_stream none b else offer_chunk text rest b

-- One step of the thread. The delivery of a terminal event ends with the event in the queue or with
-- a timeout, and then the put goes on waiting: the thread goes on in either case, so that the step
-- may come at any time.
unfoldable pub produce : Producer → Bridge → Bridge
unfolding next_chunk
produce streaming b = next_chunk b.todo b
produce sending_error b = record b { producer = sending_done; loop = b.loop ++ done ∷ [] }
produce sending_done b = record b { producer = released; slots = b.slots + 1 }
produce released b = b

abbrev pub is_full : List Event → Bool
is_full queue = leb capacity (length queue)

-- `put_nowait`, or one more chunk that is dropped
unfoldable pub put_nowait : Event → Bridge → Bridge
put_nowait e b =
    if is_full b.queue
    then record b { dropped = b.dropped + 1 }
    else record b { queue = b.queue ++ e ∷ [] }

-- `get_nowait` of the oldest event
unfoldable pub drop_oldest : List Event → Bridge → Bridge
drop_oldest [] b = b
drop_oldest (e ∷ queue) b = record b { queue = queue; dropped = b.dropped + 1 }

-- `_put` of a chunk; the put of a terminal event waits for space
unfoldable pub put : Event → List Event → Bridge → Bridge
unfolding put_nowait drop_oldest
put (chunk text) rest b = put_nowait (chunk text) (
    if is_full b.queue
    then drop_oldest b.queue (record b { loop = rest })
    else record b { loop = rest })
put (error text) rest b =
    if is_full b.queue then b else record b { loop = rest; queue = b.queue ++ error text ∷ [] }
put done rest b =
    if is_full b.queue then b else record b { loop = rest; queue = b.queue ++ done ∷ [] }

-- One step of the event loop.
unfoldable pub run_callback : List Event → Bridge → Bridge
unfolding put
run_callback [] b = b
run_callback (e ∷ rest) b = put e rest b

-- One pass of the reader's loop.
unfoldable pub receive : Event → Bridge → Bridge
receive (chunk text) b = record b { received = b.received ++ text ∷ [] }
receive (error text) b = record b {
  reader = if is_empty b.received then empty_handed else interrupted;
}
receive done b = record b { reader = answered }

unfoldable pub read : Reader → List Event → Bridge → Bridge
unfolding receive
read reading (e ∷ queue) b = receive e (record b { queue = queue })
read reading [] b = b
read answered queue b = b
read interrupted queue b = b
read empty_handed queue b = b

-- `disconnect` is the `finally` of the response, which sets `stop_event`.
pub data Step : Type 0 where
  thread : Step
  callback : Step
  reads : Step
  disconnect : Step

unfoldable pub step : Step → Bridge → Bridge
unfolding produce run_callback read
step thread b = produce b.producer b
step callback b = run_callback b.loop b
step reads b = read b.reader b.queue b
step disconnect b = record b { stopped = true }

unfoldable pub run : List Step → Bridge → Bridge
unfolding step
run [] b = b
run (s ∷ steps) b = run steps (step s b)

abbrev pub join : List Text → Text
join [] = []
join (text ∷ texts) = text ++ join texts

-- the text that is compacted, cited and stored
unfoldable pub assembled : Bridge → Text
assembled b = if is_empty b.produced then join b.received else join b.produced

-- what is said in the answer of an interrupted stream
abbrev pub interrupted_note : Text
interrupted_note =
    codes
      "\n\n*[Answer incomplete — the connection to the model dropped mid-response. The sources below cover only what was generated.]*"

abbrev pub final_answer : (Text → Text) → Bridge → Text
final_answer compact b = elim b.reader [
  | interrupted ↦ compact (assembled b) ++ interrupted_note
  | _ ↦ compact (assembled b)
]
