-- ===== src/Tests/Pages.antt =====
-- processors/page_state.py on small inputs.
use wikistream_kafka.Prelude.{
  ℕ, ◌≡◌, refl, inl, String, false, none, some, [], ◌∷◌, contains, string_eq, nat_eq, ◌==◌,
  if◌then◌else◌,
}
use wikistream_kafka.Prelude.Int.{pos}
use wikistream_kafka.Dict
use wikistream_kafka.Dict.{Dict}
use wikistream_kafka.Models.{CleanEvent, is_revert, key_for}
use wikistream_kafka.PageLatest.{PageLatest, Wire, IsSound, from_event, is_deletion, page_update}
use wikistream_kafka.PageState.{
  remember, is_stale, time_of_record, Produced, Message, PageState, page_state, failed, record_read,
  load_applied, load_loop, assigned, count_write, apply_update, handle,
}
use wikistream_kafka.PageState as PageState
use wikistream_kafka.PageState.Guard.{whole}
use wikistream_kafka.PageState.Compaction.{Compacts, InOrder, nothing, keep, drop}
use wikistream_kafka.PageState.Reached.{Topic, Reach, start, handled, given, set_partition}
use wikistream_kafka.PageState.Latest.{records-InOrder, guard_rebuilt}

program : Unit {0}
unfolding contains Dict.get Dict.put Dict.get_or is_revert key_for from_event is_deletion
    page_update remember is_stale time_of_record load_loop load_applied whole assigned count_write
    apply_update handle
program = tt

abbrev event : String → String → CleanEvent
event type time = record {
  event_id = "e";
  wiki = "enwiki";
  title = "A";
  type = type;
  namespace = pos 0;
  user = "X";
  bot = false;
  minor = false;
  comment = "";
  event_time = time;
  rev_old = none;
  rev_new = none;
  length_old = none;
  length_new = none;
  server_name = "en.wikipedia.org";
  log_type = some "delete";
  log_action = some "delete";
}

abbrev latest_at : String → PageLatest
latest_at time = record {
  wiki = "enwiki";
  title = "A";
  event_id = "e";
  type = "edit";
  user = "X";
  bot = false;
  minor = false;
  is_revert = false;
  comment = "";
  event_time = time;
  rev_id = none;
  length = none;
}

-- Three messages: an edit at 20, an edit at 10 and a deletion at 30. The text of a record is its
-- time.
abbrev wire : Wire
wire = record {
  clean_from_json = λ s.
      if s == "new"
      then some (event "edit" "20")
      else if s == "old"
      then some (event "edit" "10")
      else if s == "gone"
      then some (event "log" "30")
      else none;
  to_json = λ r. r.event_time;
  from_json = λ s. some (latest_at s);
  event_ms = λ s.
      if s == "10"
      then some 10
      else if s == "20"
      then some 20
      else if s == "30"
      then some 30
      else none;
  is_revert_comment = λ c. false;
}

wire-IsSound : IsSound wire
wire-IsSound r = (latest_at r.event_time, refl, refl)

abbrev message : String → Message
message text = record { partition = 0; value = text }

abbrev owner : PageState
owner = record page_state { applied = (0, []) ∷ [] }

takes : assigned wire page_state 0 (whole []) ≡ some owner
unfolding program
takes = refl

abbrev shown : String → ℕ → Produced
shown time t = record { key = "enwiki:A"; value = some time; timestamp = t }

abbrev tombstone : Produced
tombstone = record { key = "enwiki:A"; value = none; timestamp = 30 }

abbrev after_new : PageState
after_new = (apply_update wire owner 0 "enwiki:A" (some (from_event wire (event "edit" "20"))) 20).0

writes : handle wire owner (message "new") ≡ some (after_new, shown "20" 20 ∷ [])
unfolding program
writes = refl

abbrev applied_at : ℕ → Dict String ℕ
applied_at t = ("enwiki:A", t) ∷ []

skips_older : handle wire after_new (message "old") ≡ some (record after_new { stale = 1 }, [])
unfolding program
skips_older = refl

deletes_keep_time :
    load_applied wire (whole (shown "20" 20 ∷ tombstone ∷ [])) ≡ some (applied_at 30)
unfolding program
deletes_keep_time = refl

-- A poll that brings nothing in time ends the load early; an error is raised.
stops_early :
    load_applied wire
      (record_read (some "enwiki:A") none 30 ∷ PageState.nothing ∷ whole (shown "40" 40 ∷ []))
    ≡ some (applied_at 30)
unfolding program
stops_early = refl

load_fails : load_applied wire (record_read none none 30 ∷ failed ∷ []) ≡ none
unfolding program
load_fails = refl

unreadable : handle wire owner (message "noise") ≡ some (record owner { errors = 1 }, [])
unfolding program
unreadable = refl

abbrev after_gone : PageState
after_gone = (apply_update wire after_new 0 "enwiki:A" none 30).0

deletes : handle wire after_new (message "gone") ≡ some (after_gone, tombstone ∷ [])
unfolding program
deletes = refl

abbrev no_records : Topic
no_records p = []

abbrev one_record : Topic
one_record = set_partition no_records 0 (shown "20" 20 ∷ [])

abbrev two_records : Topic
two_records = set_partition one_record 0 (shown "20" 20 ∷ tombstone ∷ [])

reached : Reach wire after_new one_record
unfolding program
reached = handled (given start 0 takes) (message "new") [] refl writes

holds_twenty : Dict.get after_new.applied 0 ≡ some (applied_at 20)
unfolding program
holds_twenty = refl

holds_thirty : Dict.get after_gone.applied 0 ≡ some (applied_at 30)
unfolding program
holds_thirty = refl

old_update :
    page_update wire (event "edit" "10")
    ≡ some ("enwiki:A", some (from_event wire (event "edit" "10")))
unfolding program
old_update = refl

reached_gone : Reach wire after_gone two_records
unfolding program
reached_gone = handled reached (message "gone") (applied_at 20) refl deletes

only_tombstone : Compacts (two_records 0) (tombstone ∷ [])
only_tombstone = drop (shown "20" 20) tombstone (inl refl) refl (keep tombstone nothing)

records-InOrder_example : InOrder (two_records 0)
records-InOrder_example = records-InOrder wire-IsSound reached_gone 0

guard_rebuilt_example :
    (rebuilt : Dict String ℕ) × (load_applied wire (whole (tombstone ∷ [])) ≡ some rebuilt)
    × ((key : String) → Dict.get rebuilt key ≡ Dict.get (applied_at 30) key)
guard_rebuilt_example =
    guard_rebuilt wire-IsSound reached_gone 0 (applied_at 30) holds_thirty (tombstone ∷ [])
      only_tombstone
