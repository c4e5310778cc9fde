-- ===== src/Windows/Close.antt =====
-- processors/windows.py: `pop_closed`, `commit_offsets`, `revoke` and the counters.
use wikistream_kafka.Prelude.{
  ℕ, ◌+◌, Bool, ◌&&◌, ◌||◌, Option, none, some, List, [], ◌∷◌, ◌++◌, nat_eq, insert, ltb, leb,
  if◌then◌else◌, length, filter,
}
use wikistream_kafka.Dict
use wikistream_kafka.Dict.{Dict, keys}
use wikistream_kafka.Offset.{Offset, unset, earlier, next}
use wikistream_kafka.Windows.{
  WindowKey, key_eq, Window, ClosedWindow, PartitionState, MinuteWindows, closed_before, state,
  watermark,
}

abbrev pub closed_window : WindowKey → Window → ClosedWindow
closed_window key w = record {
  wiki = key.wiki;
  title = key.title;
  minute_ms = key.minute;
  count = w.count;
}

-- `partial_floor` after a window with this first offset was written early
abbrev pub lower_floor : Offset → Offset → Offset
lower_floor floor first = if unset floor then first else earlier floor first

-- The body of the loop over `done`. A key of `done` is a key of `windows`, so the `pop` finds it;
-- on a missing key Python raises, and the model leaves the state as it is.
unfoldable pub pop_window :
    Bool → ℕ → WindowKey → PartitionState × List ClosedWindow → PartitionState × List ClosedWindow
pop_window final cutoff key (s, closed) = elim (Dict.get s.windows key) [
  | none ↦ (s, closed)
  | some w ↦
      let s' : PartitionState = record s {
        windows = Dict.remove s.windows key;
        flushed_minutes = insert s.flushed_minutes key.minute;
        partial_floor =
            if final && leb cutoff key.minute
            then lower_floor s.partial_floor w.first_offset
            else s.partial_floor;
      } in
      (s', closed ++ closed_window key w ∷ [])
]

unfoldable pub pop_all :
    Bool
    → ℕ
    → List WindowKey
    → PartitionState × List ClosedWindow
    → PartitionState × List ClosedWindow
pop_all final cutoff [] acc = acc
pop_all final cutoff (k ∷ ks) acc = pop_all final cutoff ks (pop_window final cutoff k acc)

-- the list `done`
unfoldable pub done : Bool → ℕ → PartitionState → List WindowKey
done final cutoff s = filter (λ k. final || ltb k.minute cutoff) (keys s.windows)

abbrev pub forget_old : ℕ → PartitionState → PartitionState
forget_old cutoff s = record s { flushed_minutes = filter (λ m. leb cutoff m) s.flushed_minutes }

-- the body of the loop over the partitions
unfoldable pub pop_state :
    ℕ → Bool → PartitionState → List ClosedWindow → PartitionState × List ClosedWindow
pop_state lateness_ms final s closed =
    let cutoff = closed_before lateness_ms s in
    let (s', closed') = pop_all final cutoff (done final cutoff s) (s, closed) in
    (forget_old cutoff s', closed')

unfoldable pub pop_partitions :
    ℕ → Bool → Dict ℕ PartitionState → List ClosedWindow → Dict ℕ PartitionState × List ClosedWindow
pop_partitions lateness_ms final [] closed = ([], closed)
pop_partitions lateness_ms final ((p, s) ∷ rest) closed =
    let (s', closed') = pop_state lateness_ms final s closed in
    let (rest', all_closed) = pop_partitions lateness_ms final rest closed' in
    ((p, s') ∷ rest', all_closed)

unfoldable pub pop_closed : MinuteWindows → Bool → MinuteWindows × List ClosedWindow
pop_closed m final =
    let (partitions, closed) = pop_partitions m.lateness_ms final m.partitions [] in
    (record m { partitions = partitions }, closed)

-- `min(w.first_offset for w in state.windows.values())`, over a first value and the rest
unfoldable pub lowest_first : Offset → Dict WindowKey Window → Offset
lowest_first least [] = least
lowest_first least ((k, w) ∷ rest) = lowest_first (earlier least w.first_offset) rest

-- The offset before the floor is taken into account; `none` is the `continue`.
unfoldable pub needed_from : PartitionState → Option Offset
needed_from s = elim s.windows [
  | [] ↦ if unset s.last_offset then none else some (next s.last_offset)
  | (k, w) ∷ rest ↦ some (lowest_first w.first_offset rest)
]

unfoldable pub commit_offset : PartitionState → Option Offset
commit_offset s = elim (needed_from s) [
  | none ↦ none
  | some offset ↦ some (if unset s.partial_floor then offset else earlier offset s.partial_floor)
]

unfoldable pub commit_offsets_of : Dict ℕ PartitionState → Dict ℕ Offset → Dict ℕ Offset
commit_offsets_of [] offsets = offsets
commit_offsets_of ((p, s) ∷ rest) offsets =
    commit_offsets_of rest
      (elim (commit_offset s) [ none ↦ offsets | some offset ↦ Dict.put offsets p offset ])

unfoldable pub commit_offsets : MinuteWindows → Dict ℕ Offset
commit_offsets m = commit_offsets_of m.partitions []

unfoldable pub revoke : MinuteWindows → List ℕ → MinuteWindows
revoke m [] = m
revoke m (p ∷ ps) = revoke (record m { partitions = Dict.remove m.partitions p }) ps

unfoldable pub open_in : Dict ℕ PartitionState → ℕ
open_in [] = 0
open_in ((p, s) ∷ rest) = length s.windows + open_in rest

-- `open_windows()`; with a partition, the count of that one
unfoldable pub open_windows : MinuteWindows → Option ℕ → ℕ
open_windows m none = open_in m.partitions
open_windows m (some p) = length (state m p).windows

pub record Stats : Type 0 where
  pub counted : ℕ
  pub open_windows : ℕ
  pub late_events : ℕ
  pub watermark_ms : ℕ

unfoldable pub stats : MinuteWindows → Stats
stats m = record {
  counted = m.counted;
  open_windows = open_windows m none;
  late_events = m.late_events;
  watermark_ms = watermark m.partitions;
}
