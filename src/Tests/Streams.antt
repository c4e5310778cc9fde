-- ===== src/Tests/Streams.antt =====
-- ingestor/sse.py, `Ingestor.handle` and the checkpoint file on small inputs.
use wikistream_kafka.Prelude.{
  ℕ, ◌≡◌, refl, String, true, false, Option, none, some, List, [], ◌∷◌, ◌++◌, map, contains,
  discard, insert, nat_eq, string_eq, ◌==◌, if◌then◌else◌,
}
use wikistream_kafka.Sse.{
  SseEvent, partition, strip_space, is_comment, join, flush, set_field, feed, read_lines,
  stream_events,
}
use wikistream_kafka.Sse.Printed.{print_field, no_colon}
use wikistream_kafka.Sse.Trip.{Message, print_data, print_id, print, events_of, stream_events-print}
use wikistream_kafka.Parsing.{
  Library, object, text, field, no_fields, Fields, time, and_then, id_at, id_from, event_id_of, get,
  lookup,
}
use wikistream_kafka.Parsing.Clean.{object_of}
use wikistream_kafka.Ingestor.{Sent, Checkpoint, register, confirm, release, advance}
use wikistream_kafka.Ingestor.Process.{
  ingestor, accepted, send, send_loop, serve, on_delivery, delivered, delivery_failed, maybe_save,
  give_up, mark_error, stop, shutdown,
}
use wikistream_kafka.Ingestor.Resume.{log_all, log_delivery, log_attempts, sent_after}
use wikistream_kafka.Ingestor.Runs.{Run, start}
use wikistream_kafka.Ingestor.Handle.{
  Writer, decode_payload, dlq_record, parse_text, read_event, choose, refuse, decide, encodes,
  mark_refused, post, handle,
}
use wikistream_kafka.Ingestor.Loop.{
  Turn, proceed, read_events, finished, lost, Connection, disconnect, connections, sleep, run,
  exit_code,
}
use wikistream_kafka.Ingestor.Kept.{ids_of, stream_ids}
use wikistream_kafka.Ingestor.Through.{no_event_skipped}
use wikistream_kafka.Ingestor.File.{
  Directory, load, save_to, clean_up, payload, written, synced, as_loaded, load-payload,
}

program : Unit {0}
unfolding contains discard insert confirm release register advance on_delivery delivered
    delivery_failed maybe_save serve send send_loop give_up mark_error stop shutdown log_all
    log_delivery log_attempts sent_after partition strip_space is_comment join flush set_field feed
    read_lines stream_events print_field no_colon print_data print_id print events_of and_then id_at
    id_from event_id_of get lookup object_of decode_payload dlq_record parse_text read_event choose
    refuse decide encodes mark_refused post handle proceed read_events disconnect connections sleep
    run exit_code ids_of stream_ids load save_to clean_up payload
program = tt

-- A comment, a field with two colons, and two lines of data.
abbrev lines : List (Option String)
lines =
    some ":ok"
    ∷ some "event: note"
    ∷ none
    ∷ some "data: a:b"
    ∷ some "data:c"
    ∷ some "id: 7"
    ∷ some ""
    ∷ []

one_event :
    stream_events lines ≡ record { event = "note"; payload = "a:b\nc"; event_id = some "7" } ∷ []
unfolding program
one_event = refl

abbrev messages : List Message
messages =
    record { event = "message"; id = some "[1]"; first = "{"; more = "}" ∷ [] }
    ∷ record { event = "error"; id = none; first = "x"; more = [] }
    ∷ []

stream_events-print_example : stream_events (print messages) ≡ events_of none messages
stream_events-print_example = stream_events-print messages

abbrev fields : Fields
fields = field "meta" (object (field "id" (text "e1") no_fields)) no_fields

abbrev lib : Library
lib = record {
  decode = λ b. some "text";
  loads = λ s. if s == "{}" then some (object fields) else none;
  float_truth = λ s. true;
  str = λ v. "";
  strip = λ s. s;
  single_spaced = λ s. s;
  utc_of_iso = λ s. time s;
  utc_of_timestamp = λ n. none;
}

abbrev out : Writer
out = record {
  encode = λ s. some (1 ∷ []);
  dumps = λ v. "json";
  repr = λ b. "";
  message = λ r. "refused";
}

abbrev loaded : Checkpoint
loaded = record { last_event_id = none; events_confirmed = 0 }

abbrev turn : SseEvent → Turn
turn e = record {
  event = e;
  failed_at = "now";
  attempts = accepted ∷ [];
  callbacks = [];
  signalled = false;
}

-- A good event, an error event, and one that is no JSON.
abbrev turns : List Turn
turns =
    turn (record { event = "message"; payload = "{}"; event_id = some "a" })
    ∷ turn (record { event = "error"; payload = "oops"; event_id = some "b" })
    ∷ turn (record { event = "message"; payload = "not json"; event_id = some "c" })
    ∷ []

two_sent :
    (read_events lib out (ingestor loaded 0) 4 turns).ingestor.tracker.pending
    ≡ (1, some "a") ∷ (2, some "c") ∷ []
unfolding program
two_sent = refl

no_event_skipped_example :
    let after = read_events lib out (ingestor loaded 0) 4 turns in
    (new : List Sent) × (log' : List ℕ) × Run loaded 0 after.ingestor ([] ++ new) log'
    × (after.progress ≡ finished → map (λ s. s.1) new ≡ stream_ids turns)
unfolding program
no_event_skipped_example =
    no_event_skipped loaded 0 lib out turns 4 start (tt, tt, (tt, tt, (tt, tt, tt)))

-- Three connections that fail double the time between them; the callback that fails then stops it.
abbrev outage : Connection
outage = record { turns = []; ending = lost [] [] false }

backs_off : (connections lib out (ingestor loaded 0) 1 (outage ∷ outage ∷ outage ∷ [])).1 ≡ 8
unfolding program
backs_off = refl

abbrev failing : Connection
failing = record {
  turns = [];
  ending = lost (record { err = some "gone"; seq = 1; now = 5 } ∷ []) [] false;
}

exits : exit_code (run lib out (ingestor loaded 0) (failing ∷ []) []).0 ≡ 1
unfolding program
exits = refl

abbrev saved : Checkpoint
saved = record { last_event_id = some "a"; events_confirmed = 3 }

abbrev json : Library
json = record lib { loads = λ s. some (payload saved) }

load-payload_example : load json (some (1 ∷ 2 ∷ [])) ≡ as_loaded saved
load-payload_example = load-payload json saved (1 ∷ 2 ∷ []) "text" refl refl

-- A save that is killed leaves its temporary file beside the file of an earlier one.
abbrev killed_once : Directory
killed_once = record { target = some (3 ∷ []); temporaries = (4 ∷ []) ∷ [] }

killed_again :
    save_to killed_once (1 ∷ 2 ∷ []) (written 1)
    ≡ record { target = some (3 ∷ []); temporaries = (1 ∷ []) ∷ (4 ∷ []) ∷ [] }
unfolding program
killed_again = refl

cleaned : clean_up (save_to killed_once (1 ∷ 2 ∷ []) synced) synced ≡ killed_once
unfolding program
cleaned = refl
