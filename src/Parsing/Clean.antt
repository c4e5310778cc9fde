-- ===== src/Parsing/Clean.antt =====
-- common/models.py: `parse_raw` and `clean_event`.
use wikistream_kafka.Prelude.{
  ℕ, String, Option, none, some, List, string_eq, ◌==◌, contains, if◌then◌else◌,
}
use wikistream_kafka.Prelude.Int.{ℤ}
use wikistream_kafka.Models.{CleanEvent}
use wikistream_kafka.Parsing.{
  Value, null, boolean, integer, float, text, array, object, Fields, no_fields, get, lookup, time,
  value_error, overflow, Library, not_utf8, invalid_json, not_an_object, unknown_type, missing_wiki,
  missing_title, bad_namespace, no_event_time, Parsed, parsed, refused, raised, and_then,
  event_types, truth, str_or_empty, event_id_of, optional_int, optional_str,
}

-- `isinstance(raw, dict)`
unfoldable pub object_of : Value → Parsed Fields
object_of null = refused not_an_object
object_of (boolean b) = refused not_an_object
object_of (integer n) = refused not_an_object
object_of (float s) = refused not_an_object
object_of (text s) = refused not_an_object
object_of (array vs) = refused not_an_object
object_of (object fs) = parsed fs

unfoldable pub parse_raw : Library → List ℕ → Parsed Fields
parse_raw lib payload = elim (lib.decode payload) [
  | none ↦ refused not_utf8
  | some s ↦ elim (lib.loads s) [ none ↦ refused invalid_json | some v ↦ object_of v ]
]

-- `event_type not in EVENT_TYPES`: the test hashes the value, and a list or a dict has no hash.
unfoldable pub type_of : Value → Parsed String
type_of null = refused unknown_type
type_of (boolean b) = refused unknown_type
type_of (integer n) = refused unknown_type
type_of (float s) = refused unknown_type
type_of (text s) = if contains event_types s then parsed s else refused unknown_type
type_of (array vs) = raised "TypeError: unhashable type: 'list'"
type_of (object fs) = raised "TypeError: unhashable type: 'dict'"

unfoldable pub wiki_of : Value → Parsed String
wiki_of null = refused missing_wiki
wiki_of (boolean b) = refused missing_wiki
wiki_of (integer n) = refused missing_wiki
wiki_of (float s) = refused missing_wiki
wiki_of (text s) = if s == "" then refused missing_wiki else parsed s
wiki_of (array vs) = refused missing_wiki
wiki_of (object fs) = refused missing_wiki

unfoldable pub title_of : Library → Value → Parsed String
title_of lib null = refused missing_title
title_of lib (boolean b) = refused missing_title
title_of lib (integer n) = refused missing_title
title_of lib (float s) = refused missing_title
title_of lib (text s) = if lib.strip s == "" then refused missing_title else parsed s
title_of lib (array vs) = refused missing_title
title_of lib (object fs) = refused missing_title

unfoldable pub namespace_of : Value → Parsed ℤ
namespace_of null = refused bad_namespace
namespace_of (boolean b) = refused bad_namespace
namespace_of (integer n) = parsed n
namespace_of (float s) = refused bad_namespace
namespace_of (text s) = refused bad_namespace
namespace_of (array vs) = refused bad_namespace
namespace_of (object fs) = refused bad_namespace

-- the second half of `_event_time`, on `raw.get("timestamp")`
unfoldable pub timestamp_of : Library → Value → Parsed String
timestamp_of lib null = refused no_event_time
timestamp_of lib (boolean b) = refused no_event_time
timestamp_of lib (integer n) = elim (lib.utc_of_timestamp n) [
  | none ↦ raised "ValueError: year is out of range"
  | some t ↦ parsed t
]
timestamp_of lib (float s) = refused no_event_time
timestamp_of lib (text s) = refused no_event_time
timestamp_of lib (array vs) = refused no_event_time
timestamp_of lib (object fs) = refused no_event_time

-- the first half, on `dt`
unfoldable pub time_of : Library → Value → Value → Parsed String
time_of lib (text s) timestamp = elim (lib.utc_of_iso s) [
  | time t ↦ parsed t
  | value_error ↦ timestamp_of lib timestamp
  | overflow ↦ raised "OverflowError: date value out of range"
]
time_of lib null timestamp = timestamp_of lib timestamp
time_of lib (boolean b) timestamp = timestamp_of lib timestamp
time_of lib (integer n) timestamp = timestamp_of lib timestamp
time_of lib (float s) timestamp = timestamp_of lib timestamp
time_of lib (array vs) timestamp = timestamp_of lib timestamp
time_of lib (object fs) timestamp = timestamp_of lib timestamp

-- `v.get(name)`, which only a dict has
unfoldable pub attribute : Value → String → Parsed Value
attribute null name = raised "AttributeError: get"
attribute (boolean b) name = raised "AttributeError: get"
attribute (integer n) name = raised "AttributeError: get"
attribute (float s) name = raised "AttributeError: get"
attribute (text s) name = raised "AttributeError: get"
attribute (array vs) name = raised "AttributeError: get"
attribute (object fs) name = parsed (get fs name)

-- `raw.get("meta", {})`
abbrev pub meta_of : Fields → Value
meta_of raw = elim (lookup raw "meta") [ none ↦ object no_fields | some v ↦ v ]

unfoldable pub event_time : Library → Fields → Parsed String
event_time lib raw =
    and_then (attribute (meta_of raw) "dt") (λ dt. time_of lib dt (get raw "timestamp"))

-- `raw.get(name) or {}`
unfoldable pub or_empty : Library → Value → Value
or_empty lib v = if truth lib v then v else object no_fields

-- `_optional_int(v.get(name))`
abbrev pub int_at : Value → String → Parsed (Option ℤ)
int_at v name = and_then (attribute v name) optional_int

-- The arguments of the constructor that may raise, in order; the others only read.
unfoldable pub build : Library → Fields → String → String → String → String → ℤ → Parsed CleanEvent
build lib raw event_id type wiki title namespace =
    let revision = or_empty lib (get raw "revision") in
    let length = or_empty lib (get raw "length") in
    and_then (event_time lib raw) (λ at. and_then (int_at revision "old") (λ rev_old.
      and_then (int_at revision "new") (λ rev_new. and_then (int_at length "old") (λ length_old.
        and_then (int_at length "new") (λ length_new. parsed (record {
          event_id = event_id;
          wiki = wiki;
          title = lib.single_spaced title;
          type = type;
          namespace = namespace;
          user = str_or_empty lib (get raw "user");
          bot = truth lib (get raw "bot");
          minor = truth lib (get raw "minor");
          comment = lib.strip (str_or_empty lib (get raw "comment"));
          event_time = at;
          rev_old = rev_old;
          rev_new = rev_new;
          length_old = length_old;
          length_new = length_new;
          server_name = str_or_empty lib (get raw "server_name");
          log_type = optional_str (get raw "log_type");
          log_action = optional_str (get raw "log_action");
        }))))))

unfoldable pub clean_event : Library → Fields → Parsed CleanEvent
clean_event lib raw = and_then (event_id_of raw) (λ event_id.
    and_then (type_of (get raw "type")) (λ type. and_then (wiki_of (get raw "wiki")) (λ wiki.
      and_then (title_of lib (get raw "title")) (λ title.
        and_then (namespace_of (get raw "namespace"))
          (λ namespace. build lib raw event_id type wiki title namespace)))))
