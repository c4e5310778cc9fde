-- ===== src/Tests/Flushing.antt =====
-- processors/trending.py on small inputs.
use wikistream_kafka.Prelude.{
  ℕ, ◌≡◌, refl, inl, false, none, some, [], ◌∷◌, nat_eq, string_eq, contains, insert, filter, In,
}
use wikistream_kafka.Prelude.Int.{pos}
use wikistream_kafka.Dict
use wikistream_kafka.Dict.{Dict}
use wikistream_kafka.Dict.Bulk.{delete_all}
use wikistream_kafka.Offset.{AtMost}
use wikistream_kafka.Models.{CleanEvent}
use wikistream_kafka.Transform.{event_time_ms}
use wikistream_kafka.Windows.{
  WindowKey, key_eq, Window, add_offset, ClosedWindow, PartitionState, minute_start, closed_before,
  oldest, oldest_minute, force_out, cap_rounds, enforce_cap, observe, put_edit, add_to, add,
}
use wikistream_kafka.Windows.Close.{
  pop_window, pop_all, done, pop_state, pop_partitions, pop_closed, lowest_first, needed_from,
  commit_offset, commit_offsets_of, commit_offsets, revoke,
}
use wikistream_kafka.Windows.Runs.{Logs, log_edit}
use wikistream_kafka.Trending.{
  Readers, Message, Trending, trending, write, commit, count_edit, handle, flush, on_revoke,
}
use wikistream_kafka.Trending.Flushes.{Reach, start, counted, flush_commit_safe}

program : Unit {0}
unfolding contains insert filter Dict.get Dict.put Dict.remove Dict.get_or delete_all minute_start
    closed_before oldest oldest_minute force_out cap_rounds enforce_cap observe add_offset put_edit
    add_to add pop_window pop_all done pop_state pop_partitions pop_closed lowest_first needed_from
    commit_offset commit_offsets_of commit_offsets revoke event_time_ms count_edit handle flush
    on_revoke
program = tt

abbrev event : CleanEvent
event = record {
  event_id = "e1";
  wiki = "enwiki";
  title = "A";
  type = "edit";
  namespace = pos 0;
  user = "X";
  bot = false;
  minor = false;
  comment = "";
  event_time = "T";
  rev_old = none;
  rev_new = none;
  length_old = none;
  length_new = none;
  server_name = "";
  log_type = none;
  log_action = none;
}

abbrev readers : Readers
readers = record { from_json = λ s. some event; event_ms = λ s. some 60500 }

abbrev message : Message
message = record { partition = 0; offset = 10; timestamp = 60500; value = "{}" }

abbrev one : Trending
one = handle readers (trending 0) message

abbrev row : ClosedWindow
row = record { wiki = "enwiki"; title = "A"; minute_ms = 60000; count = 1 }

-- A flush at an interval writes nothing yet and commits the offset of the open window.
waits : (flush one false 5000).1 ≡ commit ((0, some 10) ∷ []) ∷ []
unfolding program
waits = refl

-- A revoked partition is written first; the offset stays at the partial total.
revokes : (on_revoke one (0 ∷ []) 5000).1 ≡ write (row ∷ []) ∷ commit ((0, some 10) ∷ []) ∷ []
unfolding program
revokes = refl

abbrev logs : Logs
logs = log_edit (trending 0).windows (λ p. []) 0 10 "enwiki" "A" 60500

reached : Reach readers one logs
unfolding program
reached = counted (start 0) message event refl

flush_commit_safe_example :
    (s : PartitionState) × (Dict.get (flush one false 5000).0.windows.partitions 0 ≡ some s)
    × ((k : WindowKey) (w : Window) (o : ℕ)
        → Dict.get s.windows k ≡ some w
        → In (k, o) (logs 0)
        → AtMost (some 10) (some o))
unfolding program
flush_commit_safe_example =
    flush_commit_safe reached false 5000 ((0, some 10) ∷ []) (inl refl) 0 (some 10) refl
