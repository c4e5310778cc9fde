-- ===== src/Sse.antt =====
-- ingestor/sse.py: the Server-Sent Events client, from the lines of a response to events.
pub mod Printed
pub mod Trip
use Prim.Native.Char.{code}
use Prim.Native.String.{[] as no_text, ◌∷◌ as ◌∷ᵗ◌}
use wikistream_kafka.Prelude.{
  ℕ, String, Bool, true, false, Option, none, some, List, [], ◌∷◌, ◌++◌, string_eq, nat_eq, ◌==◌,
  if◌then◌else◌, append_text,
}

pub record SseEvent : Type 0 where
  pub event : String
  pub payload : String
  pub event_id : Option String

pub record SseParser : Type 0 where
  pub event : String
  pub data_lines : List String
  pub event_id : Option String

abbrev pub sse_parser : SseParser
sse_parser = record { event = "message"; data_lines = []; event_id = none }

-- `line.startswith(":")`
unfoldable pub is_comment : String → Bool
is_comment (String.[]) = false
is_comment (String.◌∷◌ c s) = code c == 58

-- `line.partition(":")`: what stands before the first colon, and what stands after it
unfoldable pub partition : String → String × String
partition (String.[]) = ("", "")
partition (String.◌∷◌ c s) =
    let (field_name, value) = partition s in
    if code c == 58 then ("", s) else (String.◌∷◌ c field_name, value)

-- `value[1:]` when the value starts with a space
unfoldable pub strip_space : String → String
strip_space (String.[]) = ""
strip_space (String.◌∷◌ c s) = if code c == 32 then s else String.◌∷◌ c s

-- `"\n".join(lines)`
unfoldable pub join : List String → String
join [] = ""
join (s ∷ []) = s
join (s ∷ t ∷ rest) = append_text s (append_text "\n" (join (t ∷ rest)))

-- `_flush`
unfoldable pub flush : SseParser → SseParser × Option SseEvent
flush p = elim p.data_lines [
  | [] ↦ (record p { event = "message" }, none)
  | line ∷ lines ↦ (
    record p { event = "message"; data_lines = [] },
    some (record { event = p.event; payload = join (line ∷ lines); event_id = p.event_id }),
  )
]

-- what a field does to the parser
unfoldable pub set_field : SseParser → String → String → SseParser
set_field p field_name value =
    if field_name == "data"
    then record p { data_lines = p.data_lines ++ value ∷ [] }
    else if field_name == "event"
    then record p { event = value }
    else if field_name == "id"
    then record p { event_id = some value }
    else p

unfoldable pub feed : SseParser → String → SseParser × Option SseEvent
feed p line =
    let (field_name, value) = partition line in
    if is_comment line
    then (p, none)
    else if line == ""
    then flush p
    else (set_field p field_name (strip_space value), none)

abbrev pub keep {ℓ} : {A : Type ℓ} → Option A → List A → List A
keep none rest = rest
keep (some a) rest = a ∷ rest

-- The loop of `stream_events`, with the parser it leaves: requests gives None for a line it cannot
-- split off yet.
unfoldable pub read_lines : SseParser → List (Option String) → SseParser × List SseEvent
read_lines p [] = (p, [])
read_lines p (none ∷ lines) = read_lines p lines
read_lines p (some line ∷ lines) =
    let (p', event) = feed p line in
    let (last, events) = read_lines p' lines in (last, keep event events)

-- the events of one connection
unfoldable pub stream_events : List (Option String) → List SseEvent
stream_events lines = (read_lines sse_parser lines).1
