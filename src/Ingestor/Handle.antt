-- ===== src/Ingestor/Handle.antt =====
-- ingestor/main.py: `Ingestor.handle`, and common/dlq.py: the record for an event that is refused.
use wikistream_kafka.Prelude.{
  ℕ, String, Bool, true, false, Option, none, some, List, string_eq, ◌==◌, if◌then◌else◌,
}
use wikistream_kafka.Sse.{SseEvent}
use wikistream_kafka.Parsing.{
  Value, null, text, object, Fields, no_fields, field, Library, Reason, invalid_json, Parsed,
  parsed, refused, raised, and_then, event_id_of,
}
use wikistream_kafka.Parsing.Clean.{object_of}
use wikistream_kafka.Ingestor.Process.{Ingestor, mark_error, Attempt, send}

-- What the writers of records ask of Python's library.
pub record Writer : Type 0 where
  -- `str.encode("utf-8")`, `none` for the UnicodeEncodeError of a lone surrogate
  pub encode : String → Option (List ℕ)
  -- `json.dumps(…, ensure_ascii=False)`
  pub dumps : Value → String
  -- `repr` of bytes
  pub repr : List ℕ → String
  -- the message of a ParseError
  pub message : Reason → String

-- `Union[bytes, str, None]`
pub data Payload : Type 0 where
  no_payload : Payload
  payload_text : String → Payload
  payload_bytes : List ℕ → Payload

unfoldable pub decode_payload : Library → Writer → Payload → String
decode_payload lib out no_payload = ""
decode_payload lib out (payload_text s) = s
decode_payload lib out (payload_bytes b) = elim (lib.decode b) [ some s ↦ s | none ↦ out.repr b ]

-- `failed_at` is the time now in ISO form.
unfoldable pub dlq_record :
    Library
    → Writer
    → (failed_at stage reason : String) → Payload
    → (source : String) → Fields
    → Option (List ℕ)
dlq_record lib out failed_at stage reason payload source position = out.encode (
    out.dumps (
      object (
        field "stage" (text stage) (
          field "reason" (text reason) (
            field "source" (text source) (
              field "position" (object position) (
                field "failed_at" (text failed_at)
                  (field "payload" (text (decode_payload lib out payload)) no_fields))))))))

-- `parse_raw` of a text
unfoldable pub parse_text : Library → String → Parsed Fields
parse_text lib s = elim (lib.loads s) [ none ↦ refused invalid_json | some v ↦ object_of v ]

-- What `handle` gives to `_send`.
pub record Letter : Type 0 where
  pub topic : String
  pub key : Option String
  pub value : String

pub data Decision : Type 0 where
  ignored : Decision
  letter : Letter → Decision
  -- an exception that is not a ParseError
  raises : Decision

abbrev pub topic_raw : String
topic_raw = "wiki.raw"

abbrev pub topic_dlq : String
topic_dlq = "wiki.dlq"

abbrev pub stream_url : String
stream_url = "https://stream.wikimedia.org/v2/stream/recentchange"

abbrev pub optional_text : Option String → Value
optional_text none = null
optional_text (some s) = text s

-- `record.decode("utf-8")`
abbrev pub dlq_letter : Library → Option (List ℕ) → Decision
dlq_letter lib none = raises
dlq_letter lib (some b) = elim (lib.decode b) [
  | none ↦ raises
  | some s ↦ letter (record { topic = topic_dlq; key = none; value = s })
]

-- The raw event with its key, or the reason to refuse it.
unfoldable pub read_event : Library → String → Parsed (Fields × String)
read_event lib s =
    and_then (parse_text lib s) (λ raw. and_then (event_id_of raw) (λ key. parsed (raw, key)))

-- the two ways out of the `try`
unfoldable pub choose : Writer → (Reason → Decision) → Parsed (Fields × String) → Decision
choose out refusal (parsed (raw, key)) =
    letter (record { topic = topic_raw; key = some key; value = out.dumps (object raw) })
choose out refusal (refused reason) = refusal reason
choose out refusal (raised x) = raises

-- the record for an event that is refused
unfoldable pub refuse : Library → Writer → String → SseEvent → Reason → Decision
refuse lib out failed_at e reason = dlq_letter lib (
    dlq_record lib out failed_at "ingestor" (out.message reason) (payload_text e.payload) stream_url
      (field "stream_id" (optional_text e.event_id) no_fields))

unfoldable pub decide : Library → Writer → String → SseEvent → Decision
decide lib out failed_at e =
    if e.event == "error"
    then ignored
    else choose out (refuse lib out failed_at e) (read_event lib e.payload)

-- Whether the key and the value of a message have a UTF-8 form.
unfoldable pub encodes : Writer → Letter → Bool
encodes out l =
    let value_encodes : Bool = elim (out.encode l.value) [ none ↦ false | some b ↦ true ] in
    elim l.key [
      | none ↦ value_encodes
      | some k ↦
          if k == ""
          then value_encodes
          else elim (out.encode k) [ none ↦ false | some b ↦ value_encodes ]
    ]

-- The refusals counted by the meter.
unfoldable pub mark_refused : Ingestor → Decision → Ingestor
mark_refused g ignored = g
mark_refused g raises = mark_error g
mark_refused g (letter l) = if l.topic == topic_dlq then mark_error g else g

pub data Handled : Type 0 where
  dropped : Handled
  -- what `_send` returned
  sent_to : Letter → Option Bool → Handled
  failed : Handled

unfoldable pub post : Writer → Ingestor → SseEvent → Decision → List Attempt → Ingestor × Handled
post out g e ignored attempts = (g, dropped)
post out g e raises attempts = (g, failed)
post out g e (letter l) attempts =
    let (g', result) = send g e.event_id attempts in
    if encodes out l then (g', sent_to l result) else (g, failed)

unfoldable pub handle :
    Library → Writer → String → Ingestor → SseEvent → List Attempt → Ingestor × Handled
handle lib out failed_at g e attempts =
    let d = decide lib out failed_at e in post out (mark_refused g d) e d attempts
