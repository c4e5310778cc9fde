-- ===== src/Transform.antt =====
-- processors/transform.py: the outcome of one raw message; and the cleaner's `handle` of
-- processors/cleaner.py.
pub mod Outcomes
use wikistream_kafka.Prelude.{
  ℕ, ◌+◌, String, Bool, true, false, Option, none, some, List, [], ◌∷◌, nat_eq, if◌then◌else◌, ltb,
}
use wikistream_kafka.Dict
use wikistream_kafka.Dict.{Dict}
use wikistream_kafka.Models.{CleanEvent, page_key}
use wikistream_kafka.Dedup.{DedupCache, default_cache, is_new}
use wikistream_kafka.Parsing.{Fields, Library, Reason, Parsed, parsed, refused, raised, is_canary}
use wikistream_kafka.Parsing.Clean.{parse_raw, clean_event}

pub data Outcome : Type 0 where
  clean : CleanEvent → Outcome
  duplicate : String → Outcome
  rejected : Reason → List ℕ → Outcome
  skipped : String → Outcome

-- `event_ms` reads an ISO time, `none` for a ValueError.
unfoldable pub event_time_ms : (String → Option ℕ) → CleanEvent → Option ℕ → ℕ
event_time_ms event_ms e fallback_ms = elim (event_ms e.event_time) [
  | some t ↦ t
  | none ↦ elim fallback_ms [ some t ↦ t | none ↦ 0 ]
]

-- The event, or that the message is a canary.
pub data Read : Type 0 where
  canary : Read
  event : CleanEvent → Read

abbrev pub as_event : Parsed CleanEvent → Parsed Read
as_event (parsed e) = parsed (event e)
as_event (refused r) = refused r
as_event (raised x) = raised x

-- the body of the `try`
unfoldable pub read_fields : Library → Parsed Fields → Parsed Read
read_fields lib (parsed raw) =
    if is_canary raw then parsed canary else as_event (clean_event lib raw)
read_fields lib (refused r) = refused r
read_fields lib (raised x) = raised x

abbrev pub deduplicated : DedupCache × Bool → CleanEvent → DedupCache × Parsed Outcome
deduplicated (cache, new) e = (cache, parsed (if new then clean e else duplicate e.event_id))

unfoldable pub outcome_of :
    (String → Option ℕ) → List ℕ → DedupCache → Option ℕ → Parsed Read → DedupCache × Parsed Outcome
outcome_of event_ms payload cache message_time_ms (refused r) = (cache, parsed (rejected r payload))
outcome_of event_ms payload cache message_time_ms (raised x) = (cache, raised x)
outcome_of event_ms payload cache message_time_ms (parsed canary) =
    (cache, parsed (skipped "canary"))
outcome_of event_ms payload cache message_time_ms (parsed (event e)) =
    deduplicated (is_new cache e.event_id (event_time_ms event_ms e message_time_ms)) e

-- The cache, and the outcome or an exception other than ParseError.
unfoldable pub transform :
    Library → (String → Option ℕ) → List ℕ → DedupCache → Option ℕ → DedupCache × Parsed Outcome
transform lib event_ms payload cache message_time_ms =
    outcome_of event_ms payload cache message_time_ms (read_fields lib (parse_raw lib payload))
