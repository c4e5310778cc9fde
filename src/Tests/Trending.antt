-- ===== src/Tests/Trending.antt =====
-- processors/windows.py on small inputs.
use wikistream_kafka.Prelude.{
  ℕ, ◌≡◌, refl, inl, inr, String, true, false, none, some, [], ◌∷◌, nat_eq, contains, insert,
  filter, In,
}
use wikistream_kafka.Dict
use wikistream_kafka.Dict.Bulk.{delete_all}
use wikistream_kafka.Offset.{AtMost}
use wikistream_kafka.Windows.{
  WindowKey, key_eq, Window, add_offset, ClosedWindow, PartitionState, MinuteWindows, new_state,
  minute_windows, minute_start, closed_before, oldest, oldest_minute, force_out, cap_rounds,
  enforce_cap, observe, put_edit, add_to, add,
}
use wikistream_kafka.Windows.Close.{
  pop_window, pop_all, done, pop_state, pop_partitions, pop_closed, lowest_first, needed_from,
  commit_offset, commit_offsets_of, commit_offsets,
}
use wikistream_kafka.Windows.Exact.{IsExact}
use wikistream_kafka.Windows.Runs.{Logs, Reach, start, edit, log_edit}
use wikistream_kafka.Windows.Reached.{pop_closed-IsExact}
use wikistream_kafka.Windows.Partial.{partial_totals_safe}
use wikistream_kafka.Windows.Commit.{commit_offsets_safe}
use wikistream_kafka.Windows.Sealing.{row_key}
use wikistream_kafka.Windows.Once.{IsOver, written_once, forced_out_lost}

program : Unit {0}
unfolding contains insert filter Dict.get Dict.put Dict.remove Dict.get_or delete_all minute_start
    closed_before oldest oldest_minute force_out cap_rounds enforce_cap observe add_offset put_edit
    add_to add pop_window pop_all done pop_state pop_partitions pop_closed lowest_first needed_from
    commit_offset commit_offsets_of commit_offsets
program = tt

-- A lateness of two minutes, and at most two windows per partition.
abbrev fresh : MinuteWindows
fresh = minute_windows 120000 2

abbrev first : MinuteWindows
first = (add fresh 0 10 "enwiki" "A" 60500).0

abbrev second : MinuteWindows
second = (add first 0 11 "enwiki" "A" 60900).0

abbrev later : MinuteWindows
later = (add second 0 12 "enwiki" "B" 300000).0

abbrev row : ClosedWindow
row = record { wiki = "enwiki"; title = "A"; minute_ms = 60000; count = 2 }

-- The minute of A is written once the watermark has passed it by the lateness.
closes : ((pop_closed second false).1 ≡ []) × ((pop_closed later false).1 ≡ row ∷ [])
unfolding program
closes = (refl, refl)

-- The offset of the oldest edit that an open window holds.
commits : Dict.get (commit_offsets later) 0 ≡ some (some 10)
unfolding program
commits = refl

-- After the flush only B is open.
moves_on : Dict.get (commit_offsets (pop_closed later false).0) 0 ≡ some (some 12)
unfolding program
moves_on = refl

abbrev logs : Logs
logs =
    log_edit second
      (log_edit first (log_edit fresh (λ p. []) 0 10 "enwiki" "A" 60500) 0 11 "enwiki" "A" 60900) 0
      12 "enwiki" "B" 300000

reached : Reach 120000 2 later logs
reached =
    edit (edit (edit start 0 10 "enwiki" "A" 60500) 0 11 "enwiki" "A" 60900) 0 12 "enwiki" "B"
      300000

pop_closed-IsExact_example : (p : ℕ) × IsExact (logs p) row
unfolding program
pop_closed-IsExact_example = pop_closed-IsExact reached false row (inl refl)

commit_offsets_safe_example :
    (s : PartitionState) × (Dict.get later.partitions 0 ≡ some s)
    × ((k : WindowKey) (w : Window) (o : ℕ)
        → Dict.get s.windows k ≡ some w
        → In (k, o) (logs 0)
        → AtMost (some 10) (some o))
unfolding program
commit_offsets_safe_example = commit_offsets_safe reached 0 (some 10) refl

-- A final flush writes B, whose minute is not over, and its offset is committed.
abbrev open_state : PartitionState
open_state = Dict.get_or later.partitions 0 new_state

abbrev window_b : WindowKey
window_b = record { wiki = "enwiki"; title = "B"; minute = 300000 }

partial_totals_safe_example : AtMost (some 12) (some 12)
unfolding program log_edit
partial_totals_safe_example =
    partial_totals_safe reached 0 open_state refl window_b
      (record { count = 1; first_offset = some 12 }) refl refl 12 (inl refl) (some 12) refl

-- One partition that holds two pages of one minute and one of the next.
abbrev page : String → ℕ → WindowKey
page title minute = record { wiki = "enwiki"; title = title; minute = minute }

abbrev once : Window
once = record { count = 1; first_offset = some 10 }

abbrev crowded : PartitionState
crowded = record {
  windows = (page "A" 60000, once) ∷ (page "B" 60000, once) ∷ (page "A" 120000, once) ∷ [];
  last_offset = some 12;
  flushed_minutes = [];
  watermark_ms = 125000;
  partial_floor = none;
}

abbrev row_of_b : ClosedWindow
row_of_b = record { wiki = "enwiki"; title = "B"; minute_ms = 60000; count = 1 }

written_once_example : IsOver 120000 9 (pop_state 120000 true crowded []).0 (row_key row_of_b)
unfolding program
written_once_example = written_once 120000 9 true crowded row_of_b (inr (inl refl))

forced_out_lost_example : IsOver 120000 2 (enforce_cap 2 crowded) (page "A" 60000)
unfolding program
forced_out_lost_example = forced_out_lost 120000 2 crowded (page "A" 60000) once refl refl
