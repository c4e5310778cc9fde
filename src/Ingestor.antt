-- ===== src/Ingestor.antt =====
-- ingestor/main.py and ingestor/checkpoint.py: deliveries in produce order, and the checkpoint
-- behind them.
pub mod Release
pub mod Tracker
pub mod Process
pub mod Safety
pub mod Resume
pub mod Runs
pub mod Handle
pub mod Loop
pub mod Reading
pub mod Kept
pub mod Through
pub mod File
use wikistream_kafka.Prelude.{
  ℕ, suc, ◌+◌, String, Bool, true, false, not, Option, none, some, List, [], ◌∷◌, ◌++◌, nat_eq,
  string_eq, ◌==◌, contains, insert, discard, if◌then◌else◌, length,
}

-- Python's test of an optional text.
abbrev pub truthy : Option String → Bool
truthy none = false
truthy (some s) = not (s == "")

-- A message handed to the producer: its number and the stream's id for it.
abbrev pub Sent : Type 0
Sent = ℕ × Option String

pub record DeliveryTracker : Type 0 where
  pub pending : List Sent
  pub confirmed : List ℕ

abbrev pub delivery_tracker : DeliveryTracker
delivery_tracker = record { pending = []; confirmed = [] }

unfoldable pub register : DeliveryTracker → ℕ → Option String → DeliveryTracker
register t seq stream_id = record t { pending = t.pending ++ (seq, stream_id) ∷ [] }

-- `if stream_id: released = stream_id`
abbrev pub newest : Option String → Option String → Option String
newest released stream_id = if truthy stream_id then stream_id else released

pub record Released : Type 0 where
  pub tracker : DeliveryTracker
  pub released : Option String
  pub count : ℕ

-- The `while` loop of `confirm`.
unfoldable pub release : List Sent → List ℕ → Option String → ℕ → Released
release [] confirmed released count = record {
  tracker = record { pending = []; confirmed = confirmed };
  released = released;
  count = count;
}
release ((seq, stream_id) ∷ pending) confirmed released count =
    let rest = release pending (discard confirmed seq) (newest released stream_id) (count + 1) in
    if contains confirmed seq then rest else record {
      tracker = record { pending = (seq, stream_id) ∷ pending; confirmed = confirmed };
      released = released;
      count = count;
    }

-- The new tracker, the newest id now safe to save, and how many messages that covers.
unfoldable pub confirm : DeliveryTracker → ℕ → Released
confirm t seq = release t.pending (insert t.confirmed seq) none 0

-- the property `in_flight`
unfoldable pub in_flight : DeliveryTracker → ℕ
in_flight t = length t.pending

pub record Checkpoint : Type 0 where
  pub last_event_id : Option String
  pub events_confirmed : ℕ

unfoldable pub advance : Checkpoint → Option String → ℕ → Checkpoint
advance c event_id count = record c {
  last_event_id = newest c.last_event_id event_id;
  events_confirmed = c.events_confirmed + count;
}

-- The headers as (name, value) pairs.
unfoldable pub resume_header : Checkpoint → List (String × String)
resume_header c = elim c.last_event_id [
  | none ↦ []
  | some id ↦ if id == "" then [] else ("Last-Event-ID", id) ∷ []
]
