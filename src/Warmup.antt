-- ===== src/Warmup.antt =====
-- processors/warmup.py: the duplicate filter is filled again from the committed part of a partition.
pub mod Replay
use wikistream_kafka.Prelude.{
  ℕ, ◌+◌, ◌-◌, max, String, Bool, true, false, Option, none, some, List, [], ◌∷◌, ltb, leb,
  if◌then◌else◌,
}
use wikistream_kafka.Dedup.{DedupCache, is_new, hour_ms}
use wikistream_kafka.Parsing.{
  Fields, Library, Parsed, parsed, refused, raised, event_id_of, and_then,
}
use wikistream_kafka.Parsing.Clean.{parse_raw}

-- A record of wiki.raw; a timestamp that Kafka does not have is 0.
pub record RawRecord : Type 0 where
  pub offset : ℕ
  pub timestamp : ℕ
  pub value : List ℕ

pub record WarmupResult : Type 0 where
  pub loaded : ℕ
  pub skipped : ℕ
  pub from_offset : Option ℕ
  pub until_offset : ℕ

-- the property `replayed`
abbrev pub replayed : WarmupResult → ℕ
replayed r = r.loaded + r.skipped

pub record Replayer : Type 0 where
  pub window_ms : ℕ
  pub max_records : ℕ

abbrev pub cache_warmer : Replayer
cache_warmer = record { window_ms = hour_ms; max_records = 200000 }

-- What the loading consumer answers: the low watermark, the timestamp of the record before the
-- committed offset if the poll returns it, the first offset at or after a time if there is one, and
-- the wall clock.
pub record Answers : Type 0 where
  pub low : ℕ
  pub last_timestamp : Option ℕ
  pub offset_for_time : ℕ → Option ℕ
  pub now_ms : ℕ

-- What one `poll` of the replay returns.
pub data Poll : Type 0 where
  nothing : Poll
  partition_eof : Poll
  failed : String → Poll
  received : RawRecord → Poll

unfoldable pub anchor_time : Answers → ℕ
anchor_time a = elim a.last_timestamp [
  | none ↦ a.now_ms
  | some timestamp ↦ if ltb 0 timestamp then timestamp else a.now_ms
]

unfoldable pub start_offset : Replayer → Answers → ℕ → Option ℕ
start_offset r a until_offset =
    let found = a.offset_for_time (anchor_time a - r.window_ms) in
    if leb until_offset a.low then none else elim found [
      | none ↦ none
      | some offset ↦
          let start = max (max offset a.low) (until_offset - r.max_records) in
          if ltb start until_offset then some start else none
    ]

-- `_load`: the cache, and whether the record was used.
unfoldable pub load_id : ℕ → RawRecord → DedupCache → Parsed String → Parsed (DedupCache × Bool)
load_id now_ms m cache (parsed event_id) =
    parsed ((is_new cache event_id (if ltb 0 m.timestamp then m.timestamp else now_ms)).0, true)
load_id now_ms m cache (refused r) = parsed (cache, false)
load_id now_ms m cache (raised x) = raised x

unfoldable pub load : Library → ℕ → RawRecord → DedupCache → Parsed (DedupCache × Bool)
load lib now_ms m cache = load_id now_ms m cache (and_then (parse_raw lib m.value) event_id_of)

abbrev pub count_load : WarmupResult → Bool → WarmupResult
count_load r true = record r { loaded = r.loaded + 1 }
count_load r false = record r { skipped = r.skipped + 1 }

-- The loop of `replay`.
unfoldable pub replay_loop :
    Library → ℕ → List Poll → DedupCache → WarmupResult → Parsed (DedupCache × WarmupResult)
replay_loop lib now_ms [] cache r = parsed (cache, r)
replay_loop lib now_ms (nothing ∷ polls) cache r = parsed (cache, r)
replay_loop lib now_ms (partition_eof ∷ polls) cache r = parsed (cache, r)
replay_loop lib now_ms (failed error ∷ polls) cache r = raised error
replay_loop lib now_ms (received m ∷ polls) cache r =
    let next =
      and_then (load lib now_ms m cache)
        (λ x. replay_loop lib now_ms polls x.0 (count_load r x.1)) in
    if leb r.until_offset m.offset then parsed (cache, r) else next

abbrev pub fresh_result : ℕ → WarmupResult
fresh_result until_offset = record {
  loaded = 0;
  skipped = 0;
  from_offset = none;
  until_offset = until_offset;
}

-- `warm`, over the polls that follow the assignment at the start offset
unfoldable pub warm :
    Library → Replayer → Answers → ℕ → List Poll → DedupCache → Parsed (DedupCache × WarmupResult)
warm lib r a until_offset polls cache =
    let result = fresh_result until_offset in
    if leb until_offset 0 then parsed (cache, result) else elim (start_offset r a until_offset) [
      | none ↦ parsed (cache, result)
      | some start ↦
          replay_loop lib a.now_ms polls cache (record result { from_offset = some start })
    ]
