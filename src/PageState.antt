-- ===== src/PageState.antt =====
-- processors/page_state.py: the guard that keeps wiki.page-latest at the latest edit of each page.
--
-- A produced record goes to the output partition with the number of the input partition, since both
-- topics are keyed by the page and have as many partitions. A time of -1, which `applied.get(key,
-- -1)` gives for a page not seen, is `none`.
pub mod Guard
pub mod Compaction
pub mod Steps
pub mod Reached
pub mod Latest
use wikistream_kafka.Prelude.{
  ℕ, ◌+◌, String, Bool, true, false, Option, none, some, List, [], ◌∷◌, nat_eq, string_eq, ltb,
  if◌then◌else◌,
}
use wikistream_kafka.Dict
use wikistream_kafka.Dict.{Dict}
use wikistream_kafka.Models.{CleanEvent}
use wikistream_kafka.PageLatest.{PageLatest, Wire, page_update}

-- `time_ms > applied.get(key, -1)`
abbrev pub is_newer : Option ℕ → ℕ → Bool
is_newer none time_ms = true
is_newer (some t) time_ms = ltb t time_ms

unfoldable pub remember : Dict String ℕ → String → ℕ → Dict String ℕ
remember applied key time_ms =
    if is_newer (Dict.get applied key) time_ms then Dict.put applied key time_ms else applied

-- `time_ms < applied.get(key, -1)`
abbrev pub is_older : Option ℕ → ℕ → Bool
is_older none time_ms = false
is_older (some t) time_ms = ltb time_ms t

unfoldable pub is_stale : Dict String ℕ → String → ℕ → Bool
is_stale applied key time_ms = is_older (Dict.get applied key) time_ms

unfoldable pub time_of_record : Wire → Option String → ℕ → ℕ
time_of_record w value record_timestamp = elim value [
  | none ↦ record_timestamp
  | some text ↦ elim (w.from_json text) [
    | none ↦ record_timestamp
    | some r ↦ elim (w.event_ms r.event_time) [ none ↦ record_timestamp | some t ↦ t ]
  ]
]

-- A record of wiki.page-latest; the value `none` is a tombstone.
pub record Produced : Type 0 where
  pub key : String
  pub value : Option String
  pub timestamp : ℕ

-- A record of wiki.clean.
pub record Message : Type 0 where
  pub partition : ℕ
  pub value : String

pub record PageState : Type 0 where
  pub applied : Dict ℕ (Dict String ℕ)
  pub updates : ℕ
  pub tombstones : ℕ
  pub stale : ℕ
  pub ignored : ℕ
  -- the two counts of the rate meter
  pub marked : ℕ
  pub errors : ℕ

abbrev pub page_state : PageState
page_state = record {
  applied = [];
  updates = 0;
  tombstones = 0;
  stale = 0;
  ignored = 0;
  marked = 0;
  errors = 0;
}

-- What a poll of `load_applied` brings: nothing in time, the end of the partition, another error, or
-- a record with its key, value and timestamp.
pub data Loaded : Type 0 where
  nothing : Loaded
  partition_eof : Loaded
  failed : Loaded
  record_read : Option String → Option String → ℕ → Loaded

-- The loop of `load_applied`, over the polls; `none` is the KafkaException. A poll that brings
-- nothing ends it, with what was read so far.
unfoldable pub load_loop : Wire → List Loaded → Dict String ℕ → Option (Dict String ℕ)
load_loop w [] applied = some applied
load_loop w (nothing ∷ polls) applied = some applied
load_loop w (partition_eof ∷ polls) applied = some applied
load_loop w (failed ∷ polls) applied = none
load_loop w (record_read none value timestamp ∷ polls) applied = load_loop w polls applied
load_loop w (record_read (some key) value timestamp ∷ polls) applied =
    load_loop w polls (remember applied key (time_of_record w value timestamp))

unfoldable pub load_applied : Wire → List Loaded → Option (Dict String ℕ)
load_applied w polls = load_loop w polls []

-- `partitions_assigned` for one partition
unfoldable pub assigned : Wire → PageState → ℕ → List Loaded → Option PageState
assigned w s p polls = elim (load_applied w polls) [
  | none ↦ none
  | some applied ↦ some (record s { applied = Dict.put s.applied p applied })
]

-- `partitions_revoked`
unfoldable pub revoked : PageState → List ℕ → PageState
revoked s [] = s
revoked s (p ∷ ps) = revoked (record s { applied = Dict.remove s.applied p }) ps

-- the counters after a record or a tombstone was written
unfoldable pub count_write : PageState → Option PageLatest → PageState
count_write s none = record s { tombstones = s.tombstones + 1; marked = s.marked + 1 }
count_write s (some r) = record s { updates = s.updates + 1; marked = s.marked + 1 }

-- `record.to_json() if record is not None else None`
abbrev pub value_of : Wire → Option PageLatest → Option String
value_of w none = none
value_of w (some r) = some (w.to_json r)

-- `handle` from the guard on: the new state and what is produced
unfoldable pub apply_update :
    Wire → PageState → ℕ → String → Option PageLatest → ℕ → PageState × List Produced
apply_update w s p key latest time_ms =
    let applied = Dict.get_or s.applied p [] in
    let skipped : PageState = record s {
      applied = Dict.put s.applied p applied;
      stale = s.stale + 1;
    } in
    let kept : PageState = record s {
      applied = Dict.put s.applied p (remember applied key time_ms);
    } in
    let out : Produced = record { key = key; value = value_of w latest; timestamp = time_ms } in
    if is_stale applied key time_ms then (skipped, []) else (count_write kept latest, out ∷ [])

-- `handle`; `none` is the ValueError that `event_ms` raises on an event time it cannot read, which
-- ends the processor.
unfoldable pub handle : Wire → PageState → Message → Option (PageState × List Produced)
handle w s m = elim (w.clean_from_json m.value) [
  | none ↦ some (record s { errors = s.errors + 1 }, [])
  | some e ↦ elim (page_update w e) [
    | none ↦ some (record s { ignored = s.ignored + 1 }, [])
    | some (key, latest) ↦ elim (w.event_ms e.event_time) [
      | none ↦ none
      | some time_ms ↦ some (apply_update w s m.partition key latest time_ms)
    ]
  ]
]
