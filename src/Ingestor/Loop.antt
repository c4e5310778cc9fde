-- ===== src/Ingestor/Loop.antt =====
-- ingestor/main.py: `Ingestor.run`, `_sleep` and the exit code, over what the stream and the broker do.
use wikistream_kafka.Prelude.{ℕ, ◌*◌, min, String, Bool, none, some, List, [], ◌∷◌, if◌then◌else◌}
use wikistream_kafka.Parsing.{Library}
use wikistream_kafka.Sse.{SseEvent}
use wikistream_kafka.Ingestor.Process.{Ingestor, stop, Delivery, serve, Attempt, shutdown}
use wikistream_kafka.Ingestor.Handle.{Writer, handle, Handled, dropped, sent_to, failed}

abbrev pub max_backoff_sec : ℕ
max_backoff_sec = 60

-- One event of the stream, what happens to the calls of `produce` for it, and the callbacks that
-- `poll(0)` serves; `signalled` if a stop was requested before the next event.
pub record Turn : Type 0 where
  pub event : SseEvent
  pub failed_at : String
  pub attempts : List Attempt
  pub callbacks : List Delivery
  pub signalled : Bool

-- `closed`: the server ends the stream. `lost`: a RequestException or KafkaException, the callbacks
-- of the `poll` that follows, and those of `_sleep`, in which a stop may be requested.
pub data Ending : Type 0 where
  closed : Ending
  lost : List Delivery → List Delivery → Bool → Ending

pub record Connection : Type 0 where
  pub turns : List Turn
  pub ending : Ending

abbrev pub signal : Bool → Ingestor → Ingestor
signal signalled g = if signalled then stop g else g

-- How far the loop over one connection came: every event was handled; the loop was left, since the
-- ingestor stops; an exception came out of `handle`; or a message still waits for its answer.
pub data Progress : Type 0 where
  finished : Progress
  left : Progress
  crashed : Progress
  waiting : Progress

pub record Events : Type 0 where
  pub ingestor : Ingestor
  pub backoff : ℕ
  pub progress : Progress

abbrev pub after_turn : Ingestor → Turn → Ingestor
after_turn g t = signal t.signalled (serve g t.callbacks)

-- What follows a call of `handle` that left `g`, where `polled` is the state after the poll, and
-- `rest` what the remaining events do from there.
unfoldable pub proceed : Ingestor → ℕ → Ingestor → Events → Handled → Events
proceed g backoff polled rest dropped =
    if polled.running then rest else record { ingestor = polled; backoff = 1; progress = left }
proceed g backoff polled rest (sent_to l (some b)) =
    if polled.running then rest else record { ingestor = polled; backoff = 1; progress = left }
proceed g backoff polled rest (sent_to l none) = record {
  ingestor = g;
  backoff = backoff;
  progress = waiting;
}
proceed g backoff polled rest failed = record {
  ingestor = g;
  backoff = backoff;
  progress = crashed;
}

-- The loop over the events of one connection.
unfoldable pub read_events : Library → Writer → Ingestor → ℕ → List Turn → Events
read_events lib out g backoff [] = record { ingestor = g; backoff = backoff; progress = finished }
read_events lib out g backoff (t ∷ turns) =
    let (g', result) = handle lib out t.failed_at g t.event t.attempts in
    let polled = after_turn g' t in
    proceed g' backoff polled (read_events lib out polled 1 turns) result

-- `_sleep`: polls until the time is over, or until a stop.
unfoldable pub sleep : Ingestor → List Delivery → Bool → Ingestor
sleep g callbacks signalled = signal signalled (serve g callbacks)

-- The end of a connection: the backoff doubles while no event comes in between.
unfoldable pub disconnect : Ingestor → ℕ → Ending → Ingestor × ℕ
disconnect g backoff closed = (g, backoff)
disconnect g backoff (lost polled slept signalled) =
    let g' = sleep (serve g polled) slept signalled in
    (g', if g'.running then min (backoff * 2) max_backoff_sec else backoff)

-- The loop of `run`, over the connections. With no connection left it is still running.
unfoldable pub connections :
    Library → Writer → Ingestor → ℕ → List Connection → Ingestor × ℕ × Progress
connections lib out g backoff [] = (g, backoff, if g.running then waiting else left)
connections lib out g backoff (c ∷ more) =
    let events = read_events lib out g backoff c.turns in
    let (g', backoff') = disconnect events.ingestor events.backoff c.ending in
    let rest = connections lib out g' backoff' more in
    if g.running
    then elim events.progress [
      | finished ↦ rest
      | left ↦ (events.ingestor, events.backoff, left)
      | crashed ↦ (events.ingestor, events.backoff, crashed)
      | waiting ↦ (events.ingestor, events.backoff, waiting)
    ]
    else (g, backoff, left)

-- `run`: an exception skips the shutdown.
unfoldable pub run :
    Library → Writer → Ingestor → List Connection → List Delivery → Ingestor × Progress
run lib out g cs flushed =
    let (g', backoff, progress) = connections lib out g 1 cs in
    (
      elim progress [ left ↦ shutdown g' flushed | finished ↦ g' | crashed ↦ g' | waiting ↦ g' ],
      progress,
    )

-- the exit code of `main`
unfoldable pub exit_code : Ingestor → ℕ
exit_code g = elim g.failure [ none ↦ 0 | some err ↦ 1 ]
