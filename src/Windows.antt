-- ===== src/Windows.antt =====
-- processors/windows.py: edits per page per minute, and the offsets that are safe to commit.
--
-- Times are milliseconds since 1970 and natural numbers. `closed_before` subtracts, and stops at 0
-- where Python goes below it: no minute lies before either, so its test answers the same.
pub mod Cap
pub mod Close
pub mod Counting
pub mod Exact
pub mod Runs
pub mod Reached
pub mod Commit
pub mod Numbered
pub mod Partial
pub mod Sealing
pub mod Popping
pub mod Once
use wikistream_kafka.Prelude.{
  ℕ, zero, suc, ◌+◌, ◌-◌, ◌*◌, ◌/◌, ◌≡◌, refl, max, min, ◌↔◌, String, Bool, true, false, not, ◌&&◌,
  ◌||◌, Option, none, some, List, [], ◌∷◌, ◌++◌, map, arith, Keyed, nat_eq, string_eq, ◌==◌,
  contains, insert, ltb, leb, if◌then◌else◌, length, filter,
}
use wikistream_kafka.Dict
use wikistream_kafka.Dict.{Dict, keys, values}
use wikistream_kafka.Dict.Bulk.{delete_all}
use wikistream_kafka.Offset.{Offset, before, unset, later, earlier, next}

abbrev pub minute_ms : ℕ
minute_ms = 60000

abbrev pub default_lateness_ms : ℕ
default_lateness_ms = 2 * minute_ms

abbrev pub max_windows_per_partition : ℕ
max_windows_per_partition = 200000

-- (wiki, title, minute)
pub record WindowKey : Type 0 where
  pub wiki : String
  pub title : String
  pub minute : ℕ

abbrev pub key_beq : WindowKey → WindowKey → Bool
key_beq a b = a.wiki == b.wiki && (a.title == b.title && a.minute == b.minute)

pub key_beq_iff : (a b : WindowKey) → (key_beq a b ≡ true) ↔ (a ≡ b)
key_beq_iff a b =
    ground (arith, string_eq.same_iff a.wiki b.wiki, string_eq.same_iff a.title b.title)

instance abbrev pub key_eq : Keyed WindowKey
key_eq = record { same = key_beq; same_iff = key_beq_iff }

pub record Window : Type 0 where
  pub count : ℕ
  pub first_offset : Offset

abbrev pub new_window : Window
new_window = record { count = 0; first_offset = none }

-- the test of `Window.add`: the first offset, or a lower one
abbrev pub lower_first : Offset → ℕ → Offset
lower_first first offset = if unset first || before (some offset) first then some offset else first

unfoldable pub add_offset : Window → ℕ → Window
add_offset w offset = record {
  count = w.count + 1;
  first_offset = lower_first w.first_offset offset;
}

pub record ClosedWindow : Type 0 where
  pub wiki : String
  pub title : String
  pub minute_ms : ℕ
  pub count : ℕ

pub record PartitionState : Type 0 where
  pub windows : Dict WindowKey Window
  pub last_offset : Offset
  pub flushed_minutes : List ℕ
  pub watermark_ms : ℕ
  pub partial_floor : Offset

abbrev pub new_state : PartitionState
new_state = record {
  windows = [];
  last_offset = none;
  flushed_minutes = [];
  watermark_ms = 0;
  partial_floor = none;
}

unfoldable pub minute_start : ℕ → ℕ
minute_start event_time_ms = event_time_ms / minute_ms * minute_ms

pub record MinuteWindows : Type 0 where
  pub lateness_ms : ℕ
  pub max_windows : ℕ
  pub partitions : Dict ℕ PartitionState
  pub late_events : ℕ
  pub counted : ℕ

-- `MinuteWindows()`
abbrev pub minute_windows : ℕ → ℕ → MinuteWindows
minute_windows lateness_ms max_windows = record {
  lateness_ms = lateness_ms;
  max_windows = max_windows;
  partitions = [];
  late_events = 0;
  counted = 0;
}

-- `self.state(partition)`: the state; `setdefault` also stores it, which the callers write out.
abbrev pub state : MinuteWindows → ℕ → PartitionState
state m partition = Dict.get_or m.partitions partition new_state

-- the property `watermark_ms`
unfoldable pub watermark : Dict ℕ PartitionState → ℕ
watermark [] = 0
watermark ((p, s) ∷ rest) = max s.watermark_ms (watermark rest)

unfoldable pub closed_before : ℕ → PartitionState → ℕ
closed_before lateness_ms s = minute_start (s.watermark_ms - lateness_ms)

-- `min(key[2] for key in state.windows)`, over a first key and the rest
unfoldable pub oldest_minute : ℕ → Dict WindowKey Window → ℕ
oldest_minute least [] = least
oldest_minute least ((k, w) ∷ rest) = oldest_minute (min least k.minute) rest

unfoldable pub oldest : Dict WindowKey Window → ℕ
oldest [] = 0
oldest ((k, w) ∷ rest) = oldest_minute k.minute rest

-- one round of `_enforce_cap`
unfoldable pub force_out : PartitionState → PartitionState
force_out s =
    let minute = oldest s.windows in
    record s {
      windows = delete_all s.windows (filter (λ k. k.minute == minute) (keys s.windows));
      flushed_minutes = insert s.flushed_minutes minute;
    }

-- `_enforce_cap`: every round deletes a window, so as many rounds as there are windows are enough.
unfoldable pub cap_rounds : ℕ → ℕ → PartitionState → PartitionState
cap_rounds max_windows zero s = s
cap_rounds max_windows (suc rounds) s =
    let rest = cap_rounds max_windows rounds (force_out s) in
    if ltb max_windows (length s.windows) then rest else s

unfoldable pub enforce_cap : ℕ → PartitionState → PartitionState
enforce_cap max_windows s = cap_rounds max_windows (length s.windows) s

-- `add` on the state of the event's partition: the new state, and whether the event was counted.
unfoldable pub observe : PartitionState → ℕ → ℕ → PartitionState
observe s offset event_time_ms = record s {
  last_offset = later s.last_offset (some offset);
  watermark_ms = max s.watermark_ms event_time_ms;
}

abbrev pub already_written : PartitionState → WindowKey → Bool
already_written s key = contains s.flushed_minutes key.minute && not (contains (keys s.windows) key)

abbrev pub too_late : ℕ → PartitionState → WindowKey → Bool
too_late lateness_ms s key = ltb key.minute (closed_before lateness_ms s) || already_written s key

-- `state.windows.setdefault(key, Window()).add(offset)`
unfoldable pub put_edit : PartitionState → WindowKey → ℕ → PartitionState
put_edit s key offset = record s {
  windows = Dict.put s.windows key (add_offset (Dict.get_or s.windows key new_window) offset);
}

unfoldable pub add_to : ℕ → ℕ → PartitionState → ℕ → String → String → ℕ → PartitionState × Bool
add_to lateness_ms max_windows s offset wiki title event_time_ms =
    let seen = observe s offset event_time_ms in
    let key : WindowKey = record {
      wiki = wiki;
      title = title;
      minute = minute_start event_time_ms;
    } in
    if too_late lateness_ms seen key
    then (seen, false)
    else (enforce_cap max_windows (put_edit seen key offset), true)

unfoldable pub add : MinuteWindows → ℕ → ℕ → String → String → ℕ → MinuteWindows × Bool
add m partition offset wiki title event_time_ms =
    let (s, counted) =
      add_to m.lateness_ms m.max_windows (state m partition) offset wiki title event_time_ms in
    let m' : MinuteWindows = record m { partitions = Dict.put m.partitions partition s } in
    if counted
    then (record m' { counted = m.counted + 1 }, true)
    else (record m' { late_events = m.late_events + 1 }, false)
