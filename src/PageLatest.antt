-- ===== src/PageLatest.antt =====
-- processors/page_latest.py: what the compacted topic wiki.page-latest should hold for a page.
use wikistream_kafka.Prelude.{
  ℕ, ◌≡◌, String, Bool, false, ◌&&◌, Option, none, some, List, [], ◌∷◌, string_eq, ◌==◌, contains,
  if◌then◌else◌,
}
use wikistream_kafka.Prelude.Int.{ℤ}
use wikistream_kafka.Models.{CleanEvent, key_for, page_key, is_revert}

abbrev pub content_types : List String
content_types = "edit" ∷ "new" ∷ []

pub record PageLatest : Type 0 where
  pub wiki : String
  pub title : String
  pub event_id : String
  pub type : String
  pub user : String
  pub bot : Bool
  pub minor : Bool
  pub is_revert : Bool
  pub comment : String
  pub event_time : String
  pub rev_id : Option ℤ
  pub length : Option ℤ

-- What the two record classes ask of the standard library: the JSON text of a record and back,
-- where `none` is the ValueError or TypeError of text that is no such record; the epoch
-- milliseconds of an ISO time, `none` for text that is no time; and the search for revert phrases.
pub record Wire : Type 0 where
  pub clean_from_json : String → Option CleanEvent
  pub to_json : PageLatest → String
  pub from_json : String → Option PageLatest
  pub event_ms : String → Option ℕ
  pub is_revert_comment : String → Bool

unfoldable pub from_event : Wire → CleanEvent → PageLatest
from_event w e = record {
  wiki = e.wiki;
  title = e.title;
  event_id = e.event_id;
  type = e.type;
  user = e.user;
  bot = e.bot;
  minor = e.minor;
  is_revert = is_revert w.is_revert_comment e;
  comment = e.comment;
  event_time = e.event_time;
  rev_id = e.rev_new;
  length = e.length_new;
}

-- the property `page_key` of a PageLatest
abbrev pub key_of : PageLatest → String
key_of r = key_for r.wiki r.title

-- The JSON text of a record reads back, with the same event time.
abbrev pub IsSound : Wire → Type 0
IsSound w =
    (r : PageLatest)
    → (back : PageLatest) × (w.from_json (w.to_json r) ≡ some back)
      × (back.event_time ≡ r.event_time)

abbrev pub equals : Option String → String → Bool
equals none t = false
equals (some s) t = s == t

unfoldable pub is_deletion : CleanEvent → Bool
is_deletion e = e.type == "log" && (equals e.log_type "delete" && equals e.log_action "delete")

-- The key with the record to write, or with `none` for a tombstone; `none` alone for an event that
-- does not change the page.
unfoldable pub page_update : Wire → CleanEvent → Option (String × Option PageLatest)
page_update w e =
    if contains content_types e.type
    then some (page_key e, some (from_event w e))
    else if is_deletion e
    then some (page_key e, none)
    else none
