-- ===== src/Ingestor/Process.antt =====
-- ingestor/main.py: the `Ingestor`, its delivery callback, its send loop and its shutdown.
--
-- The clock is in milliseconds. What the producer answers is an argument: the callbacks that a
-- `poll` serves, and whether the local queue takes a message.
use wikistream_kafka.Prelude.{
  ℕ, ◌+◌, ◌-◌, String, Bool, true, false, not, ◌&&◌, ◌||◌, Option, none, some, List, [], ◌∷◌, ltb,
  leb, ◌==◌, nat_eq, if◌then◌else◌,
}
use wikistream_kafka.Ingestor.{
  DeliveryTracker, delivery_tracker, register, confirm, Checkpoint, advance,
}

abbrev pub save_every : ℕ
save_every = 200

abbrev pub save_interval_ms : ℕ
save_interval_ms = 5000

abbrev pub queue_full_give_up_ms : ℕ
queue_full_give_up_ms = 60000

pub record Ingestor : Type 0 where
  pub checkpoint : Checkpoint
  -- the checkpoint file
  pub saved : Checkpoint
  pub tracker : DeliveryTracker
  pub marked : ℕ
  pub errors : ℕ
  pub running : Bool
  pub failure : Option String
  pub seq : ℕ
  pub unsaved : ℕ
  pub last_save : ℕ

-- `Ingestor(path)`, where the file holds `loaded`
abbrev pub ingestor : Checkpoint → ℕ → Ingestor
ingestor loaded now = record {
  checkpoint = loaded;
  saved = loaded;
  tracker = delivery_tracker;
  marked = 0;
  errors = 0;
  running = true;
  failure = none;
  seq = 0;
  unsaved = 0;
  last_save = now;
}

unfoldable pub stop : Ingestor → Ingestor
stop g = record g { running = false }

-- `meter.mark_error`
unfoldable pub mark_error : Ingestor → Ingestor
mark_error g = record g { errors = g.errors + 1 }

unfoldable pub maybe_save : Ingestor → ℕ → Ingestor
maybe_save g now =
    let due = leb save_every g.unsaved || leb save_interval_ms (now - g.last_save) in
    if ltb 0 g.unsaved && due
    then record g { saved = g.checkpoint; unsaved = 0; last_save = now }
    else g

-- the first failure is the one that is reported
abbrev pub first_failure : Option String → String → Option String
first_failure none err = some err
first_failure (some old) err = some old

-- `_on_delivery` with an error
unfoldable pub delivery_failed : Ingestor → String → Ingestor
delivery_failed g err = record g {
  errors = g.errors + 1;
  failure = first_failure g.failure err;
  running = false;
}

-- `_on_delivery` without one
unfoldable pub delivered : Ingestor → ℕ → ℕ → Ingestor
delivered g seq now =
    let r = confirm g.tracker seq in
    let advanced : Ingestor = record g {
      tracker = r.tracker;
      checkpoint = advance g.checkpoint r.released r.count;
      unsaved = g.unsaved + r.count;
    } in
    let g' : Ingestor = if ltb 0 r.count then advanced else record g { tracker = r.tracker } in
    maybe_save (record g' { marked = g'.marked + 1 }) now

-- A callback: the error if there is one, the number that `_send` gave the message, and the time.
pub record Delivery : Type 0 where
  pub err : Option String
  pub seq : ℕ
  pub now : ℕ

unfoldable pub on_delivery : Ingestor → Delivery → Ingestor
on_delivery g d = elim d.err [ some err ↦ delivery_failed g err | none ↦ delivered g d.seq d.now ]

-- `producer.poll`: the callbacks that are due, in order
unfoldable pub serve : Ingestor → List Delivery → Ingestor
serve g [] = g
serve g (d ∷ rest) = serve (on_delivery g d) rest

-- What happens to one call of `produce`: the queue takes the message, or it is full, at a time, and
-- the `poll` that follows serves some callbacks.
pub data Attempt : Type 0 where
  accepted : Attempt
  full : ℕ → List Delivery → Attempt

-- `waited_since or now`; a time of 0 counts as none
abbrev pub since : Option ℕ → ℕ → ℕ
since none now = now
since (some t) now = if t == 0 then now else t

unfoldable pub give_up : Ingestor → Ingestor
give_up g = record g {
  failure = first_failure g.failure "local queue full: Kafka is not accepting writes";
  running = false;
}

-- The loop of `_send`, over what happens to each call of `produce`. `none` for the result: the list
-- ends while the message still waits.
unfoldable pub send_loop :
    Ingestor → ℕ → Option String → Option ℕ → List Attempt → Ingestor × Option Bool
send_loop g seq stream_id waited_since [] = (g, none)
send_loop g seq stream_id waited_since (accepted ∷ rest) =
    (record g { seq = seq; tracker = register g.tracker seq stream_id }, some true)
send_loop g seq stream_id waited_since (full now callbacks ∷ rest) =
    let start = since waited_since now in
    let again = send_loop (serve g callbacks) seq stream_id (some start) rest in
    if leb queue_full_give_up_ms (now - start) || not g.running
    then (give_up g, some false)
    else again

unfoldable pub send : Ingestor → Option String → List Attempt → Ingestor × Option Bool
send g stream_id attempts = send_loop g (g.seq + 1) stream_id none attempts

-- `shutdown`: `flush` serves the callbacks that still come.
unfoldable pub shutdown : Ingestor → List Delivery → Ingestor
shutdown g callbacks =
    let g' = serve g callbacks in
    if ltb 0 g'.unsaved then record g' { saved = g'.checkpoint } else g'
