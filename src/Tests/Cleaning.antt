-- ===== src/Tests/Cleaning.antt =====
-- common/models.py, processors/transform.py, processors/warmup.py and processors/cleaner.py on small
-- inputs.
use wikistream_kafka.Prelude.{
  ℕ, ◌≡◌, refl, ap, subst, String, true, false, Option, none, some, List, [], ◌∷◌, contains, insert,
  filter, any, string_eq, nat_eq, ◌==◌,
}
use wikistream_kafka.Prelude.Int.{pos}
use wikistream_kafka.Dict
use wikistream_kafka.Dict.Bulk.{delete_all}
use wikistream_kafka.Models.{CleanEvent}
use wikistream_kafka.Dedup.{
  DedupCache, default_cache, dedup_cache, bucket_span_ms, total, expire, remembers, trim,
  enforce_size, record_id, is_new,
}
use wikistream_kafka.Dedup.Window.{feed}
use wikistream_kafka.Parsing.{
  text, integer, object, Fields, field, no_fields, lookup, get, time, Library, Parsed, parsed,
  refused, raised, and_then, truth, is_canary, id_from, id_at, event_id_of, optional_int,
  optional_str, not_utf8,
}
use wikistream_kafka.Parsing.Clean.{
  object_of, parse_raw, type_of, wiki_of, title_of, namespace_of, timestamp_of, time_of, attribute,
  event_time, or_empty, build, clean_event,
}
use wikistream_kafka.Parsing.Valid.{IsValid, clean_event-IsValid}
use wikistream_kafka.Transform.{rejected, event_time_ms, event, read_fields, outcome_of, transform}
use wikistream_kafka.Warmup.{
  WarmupResult, Answers, Poll, received, partition_eof, cache_warmer, anchor_time, start_offset,
  load_id, load, replay_loop, warm,
}
use wikistream_kafka.Warmup.Replay.{Unseen, uncommitted_passes}
use wikistream_kafka.Cleaner.{Message, Cleaner, act, act_on, handle}

program : Unit {0}
unfolding contains insert filter any Dict.get Dict.put Dict.remove Dict.get_or delete_all
    bucket_span_ms total expire remembers trim enforce_size record_id is_new feed lookup get
    and_then truth is_canary id_from id_at event_id_of optional_int optional_str object_of parse_raw
    type_of wiki_of title_of namespace_of timestamp_of time_of attribute event_time or_empty build
    clean_event event_time_ms read_fields outcome_of transform anchor_time start_offset load_id load
    replay_loop warm Unseen act act_on handle
program = tt

abbrev fields : Fields
fields = field "meta" (object (field "id" (text "e1") (field "dt" (text "T") no_fields))) (
    field "type" (text "edit") (
      field "wiki" (text "enwiki")
        (field "title" (text "A") (field "namespace" (integer (pos 0)) no_fields))))

-- the same event with a revision that is a text
abbrev odd_fields : Fields
odd_fields = field "revision" (text "x") fields

abbrev decoded : List ℕ → Option String
decoded [] = none
decoded (n ∷ rest) = some "event"

-- The library reads every text as the event.
abbrev lib : Library
lib = record {
  decode = decoded;
  loads = λ s. some (object fields);
  float_truth = λ s. true;
  str = λ v. "";
  strip = λ s. s;
  single_spaced = λ s. s;
  utc_of_iso = λ s. time s;
  utc_of_timestamp = λ n. none;
}

abbrev seven : String → Option ℕ
seven s = some 7

abbrev e1 : CleanEvent
e1 = record {
  event_id = "e1";
  wiki = "enwiki";
  title = "A";
  type = "edit";
  namespace = pos 0;
  user = "";
  bot = false;
  minor = false;
  comment = "";
  event_time = "T";
  rev_old = none;
  rev_new = none;
  length_old = none;
  length_new = none;
  server_name = "";
  log_type = none;
  log_action = none;
}

reads : clean_event lib fields ≡ parsed e1
unfolding program
reads = refl

bad_bytes : (transform lib seven [] default_cache none).1 ≡ parsed (rejected not_utf8 [])
unfolding program
bad_bytes = refl

parsed_fields : parse_raw lib (1 ∷ []) ≡ parsed fields
unfolding program
parsed_fields = refl

clean_event-IsValid_example : IsValid fields e1
clean_event-IsValid_example = clean_event-IsValid lib fields e1 reads

odd_id : event_id_of odd_fields ≡ parsed "e1"
unfolding program
odd_id = refl

odd_type : type_of (get odd_fields "type") ≡ parsed "edit"
unfolding program
odd_type = refl

odd_wiki : wiki_of (get odd_fields "wiki") ≡ parsed "enwiki"
unfolding program
odd_wiki = refl

odd_title : title_of lib (get odd_fields "title") ≡ parsed "A"
unfolding program
odd_title = refl

odd_namespace : namespace_of (get odd_fields "namespace") ≡ parsed (pos 0)
unfolding program
odd_namespace = refl

odd_time : event_time lib odd_fields ≡ parsed "T"
unfolding program
odd_time = refl

odd_revision : get odd_fields "revision" ≡ text "x"
unfolding program
odd_revision = refl

read_event : read_fields lib (parse_raw lib (1 ∷ [])) ≡ parsed (event e1)
unfolding program
read_event = refl

passes : (is_new default_cache "e1" 7).1 ≡ true
unfolding program
passes = refl

keeps : (feed (transform lib seven (1 ∷ []) default_cache none).0 []).evicted_early ≡ 0
unfolding program
keeps = refl

abbrev answers : Answers
answers = record {
  low = 2;
  last_timestamp = some 5000000;
  offset_for_time = λ t. some 4;
  now_ms = 6000000;
}

starts : start_offset cache_warmer answers 9 ≡ some 4
unfolding program
starts = refl

abbrev polls : List Poll
polls = received (record { offset = 4; timestamp = 7; value = 1 ∷ [] }) ∷ partition_eof ∷ []

other_id : (y : String) → ◌≡◌ {A = Parsed String} (parsed "e1") (parsed y) → (y == "e2") ≡ false
other_id y h =
    let f : Parsed String → String =
      λ p. elim p [ parsed x ↦ x | refused r ↦ "" | raised x ↦ "" ] in
    subst (λ (x : String). (x == "e2") ≡ false) (ap f h) refl

unseen : Unseen lib 9 "e2" polls
unfolding program
unseen = (λ before. other_id, tt)

uncommitted_passes_example :
    (y : DedupCache × WarmupResult) × (warm lib cache_warmer answers 9 polls
        (dedup_cache 3600000 12 500000)
      ≡ parsed y)
    × ((is_new y.0 "e2" 8).1 ≡ true)
uncommitted_passes_example =
    uncommitted_passes lib cache_warmer answers 9 polls 3600000 12 500000 "e2" 8 unseen

abbrev message : Message
message = record { partition = 0; offset = 4; timestamp = 7; value = 1 ∷ [] }
