-- ===== src/Trending.antt =====
-- processors/trending.py: windows are written to the database before the offsets they no longer need
-- are committed.
pub mod Flushes
use wikistream_kafka.Prelude.{
  ℕ, ◌+◌, ◌-◌, String, Bool, true, false, Option, none, some, List, [], ◌∷◌, ◌++◌, length, leb,
  nat_eq, if◌then◌else◌,
}
use wikistream_kafka.Dict.{Dict}
use wikistream_kafka.Offset.{Offset}
use wikistream_kafka.Models.{CleanEvent}
use wikistream_kafka.Transform.{event_time_ms}
use wikistream_kafka.Windows.{
  ClosedWindow, MinuteWindows, minute_windows, default_lateness_ms, max_windows_per_partition, add,
}
use wikistream_kafka.Windows.Close.{pop_closed, commit_offsets, revoke}

abbrev pub flush_interval_ms : ℕ
flush_interval_ms = 5000

-- The JSON reader of a CleanEvent, `none` for a ValueError or TypeError, and the reader of an ISO
-- time, `none` for a ValueError.
pub record Readers : Type 0 where
  pub from_json : String → Option CleanEvent
  pub event_ms : String → Option ℕ

-- A record of wiki.clean.
pub record Message : Type 0 where
  pub partition : ℕ
  pub offset : ℕ
  pub timestamp : ℕ
  pub value : String

pub record Trending : Type 0 where
  pub windows : MinuteWindows
  pub running : Bool
  pub written_rows : ℕ
  pub last_flush : ℕ
  -- the two counts of the rate meter
  pub marked : ℕ
  pub errors : ℕ

-- `Trending()` at a time of the monotonic clock
abbrev pub trending : ℕ → Trending
trending now = record {
  windows = minute_windows default_lateness_ms max_windows_per_partition;
  running = true;
  written_rows = 0;
  last_flush = now;
  marked = 0;
  errors = 0;
}

-- What reaches the database and the group coordinator, in order.
pub data Effect : Type 0 where
  write : List ClosedWindow → Effect
  commit : Dict ℕ Offset → Effect

unfoldable pub stop : Trending → Trending
stop t = record t { running = false }

unfoldable pub count_edit : Trending → MinuteWindows × Bool → Trending
count_edit t (windows, true) = record t { windows = windows; marked = t.marked + 1 }
count_edit t (windows, false) = record t { windows = windows }

unfoldable pub handle : Readers → Trending → Message → Trending
handle r t m = elim (r.from_json m.value) [
  | none ↦ record t { errors = t.errors + 1 }
  | some e ↦ count_edit t (
      add t.windows m.partition m.offset e.wiki e.title
        (event_time_ms r.event_ms e (some m.timestamp)))
]

-- `if closed: ... self.db.write(...)`
abbrev pub writes : List ClosedWindow → List Effect
writes [] = []
writes (c ∷ closed) = write (c ∷ closed) ∷ []

-- `if offsets: self.consumer.commit(...)`
abbrev pub commits : Dict ℕ Offset → List Effect
commits [] = []
commits (o ∷ offsets) = commit (o ∷ offsets) ∷ []

unfoldable pub flush : Trending → Bool → ℕ → Trending × List Effect
flush t final now =
    let (windows, closed) = pop_closed t.windows final in
    (
      record t {
        windows = windows;
        written_rows = t.written_rows + length closed;
        last_flush = now;
      },
      writes closed ++ commits (commit_offsets windows),
    )

unfoldable pub on_revoke : Trending → List ℕ → ℕ → Trending × List Effect
on_revoke t partitions now =
    let (flushed, effects) = flush t true now in
    (record flushed { windows = revoke flushed.windows partitions }, effects)

-- `_periodic`, less the lag report
unfoldable pub periodic : Trending → ℕ → Trending × List Effect
periodic t now =
    let flushed = flush t false now in
    if leb flush_interval_ms (now - t.last_flush) then flushed else (t, [])

unfoldable pub shutdown : Trending → ℕ → Trending × List Effect
shutdown t now = flush t true now
