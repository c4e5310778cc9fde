-- ===== src/Sse/Trip.antt =====
-- ingestor/sse.py: a printed stream, read back event by event.
use wikistream_kafka.Prelude.{
  ◌≡◌, refl, String, ◌∙◌, ap, none, some, Option, List, [], ◌∷◌, ◌++◌, append_assoc, append-nil,
}
use wikistream_kafka.Sse.{
  partition, SseEvent, SseParser, sse_parser, set_field, feed, flush, join, read_lines,
  stream_events, is_comment,
}
use wikistream_kafka.Sse.Printed.{print_field, no_colon, feed-print_field}

-- What a server sends: the name, perhaps an id, and one line of data or more.
pub record Message : Type 0 where
  pub event : String
  pub id : Option String
  pub first : String
  pub more : List String

unfoldable pub print_data : List String → List (Option String) → List (Option String)
print_data [] rest = rest
print_data (line ∷ lines) rest = some (print_field "data" line) ∷ print_data lines rest

unfoldable pub print_id : Option String → List (Option String) → List (Option String)
print_id none rest = rest
print_id (some id) rest = some (print_field "id" id) ∷ rest

unfoldable pub print : List Message → List (Option String)
print [] = []
print (m ∷ messages) =
    some (print_field "event" m.event)
    ∷ print_id m.id (print_data (m.first ∷ m.more) (some "" ∷ print messages))

-- A message without an id carries the last one.
abbrev pub newest_id : Option String → Option String → Option String
newest_id last none = last
newest_id last (some id) = some id

unfoldable pub events_of : Option String → List Message → List SseEvent
events_of last [] = []
events_of last (m ∷ messages) =
    let id = newest_id last m.id in
    record { event = m.event; payload = join (m.first ∷ m.more); event_id = id }
    ∷ events_of id messages

read-set :
    (p : SseParser) (name value : String) (rest : List (Option String))
    → feed p (print_field name value) ≡ (set_field p name value, none)
    → read_lines p (some (print_field name value) ∷ rest) ≡ read_lines (set_field p name value) rest
unfolding read_lines
read-set p name value rest e = rw e refl

read-data :
    (p : SseParser) (lines : List String) (rest : List (Option String))
    → read_lines p (print_data lines rest)
      ≡ read_lines (record p { data_lines = p.data_lines ++ lines }) rest
unfolding print_data set_field no_colon
read-data p [] rest = rw append-nil refl
read-data p (line ∷ lines) rest =
    read-set p "data" line (print_data lines rest) (feed-print_field p "data" line refl refl)
    ∙ read-data (record p { data_lines = p.data_lines ++ line ∷ [] }) lines rest
    ∙ rw append_assoc refl

read-id :
    (p : SseParser) (id : Option String) (rest : List (Option String))
    → read_lines p (print_id id rest)
      ≡ read_lines (record p { event_id = newest_id p.event_id id }) rest
unfolding print_id set_field no_colon
read-id p none rest = refl
read-id p (some id) rest = read-set p "id" id rest (feed-print_field p "id" id refl refl)

read-blank :
    (p : SseParser) (line : String) (lines : List String) (rest : List (Option String))
    → p.data_lines ≡ line ∷ lines
    → read_lines p (some "" ∷ rest) ≡ (
      (read_lines (record p { event = "message"; data_lines = [] }) rest).0,
      record { event = p.event; payload = join (line ∷ lines); event_id = p.event_id }
          ∷ (read_lines (record p { event = "message"; data_lines = [] }) rest).1,
    )
unfolding read_lines feed flush is_comment partition
read-blank p line lines rest e = rw e refl

read-print :
    (p : SseParser) (messages : List Message)
    → p.data_lines ≡ []
    → (read_lines p (print messages)).1 ≡ events_of p.event_id messages
unfolding print events_of no_colon set_field
read-print p [] e = unfold read_lines in refl
read-print p (m ∷ messages) e =
    let tail = print_data (m.first ∷ m.more) (some "" ∷ print messages) in
    let named : SseParser = record p { event = m.event } in
    let known : SseParser = record named { event_id = newest_id p.event_id m.id } in
    let full : SseParser = record known { data_lines = p.data_lines ++ m.first ∷ m.more } in
    let after : SseParser = record full { event = "message"; data_lines = [] } in
    let steps : read_lines p (print (m ∷ messages)) ≡ read_lines full (some "" ∷ print messages) =
      read-set p "event" m.event (print_id m.id tail) (feed-print_field p "event" m.event refl refl)
      ∙ read-id named m.id tail
      ∙ read-data known (m.first ∷ m.more) (some "" ∷ print messages) in
    let blank = read-blank full m.first m.more (print messages) (rw e refl) in
    ap (λ r. r.1) (steps ∙ blank) ∙ rw (read-print after messages refl) refl

-- Whatever messages a server sends, one after another, with their names, ids and lines of data
-- printed as fields, the client yields exactly these messages, in order: the lines of data joined by
-- newlines, and the last id seen on each message that has none of its own.
pub stream_events-print :
    (messages : List Message) → stream_events (print messages) ≡ events_of none messages
unfolding stream_events
stream_events-print messages = read-print sse_parser messages refl
