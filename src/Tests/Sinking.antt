-- ===== src/Tests/Sinking.antt =====
-- sinks/db.py and sinks/postgres_sink.py on small inputs.
use wikistream_kafka.Prelude.{
  ℕ, ◌≤◌, ◌<◌, ◌≡◌, refl, inl, String, Bool, true, false, Option, none, some, List, [], ◌∷◌, ◌++◌,
  contains, if◌then◌else◌, All, string_eq, nat_eq, ◌==◌, arith,
}
use wikistream_kafka.Prelude.Int.{pos}
use wikistream_kafka.Dict
use wikistream_kafka.Dict.{Dict, Distinct}
use wikistream_kafka.Models.{CleanEvent, is_revert}
use wikistream_kafka.Windows.{WindowKey, ClosedWindow, key_eq}
use wikistream_kafka.Sinks.{
  Written, EditRow, as_row, insert_row, insert_pages, insert_rows, edit_rows, insert_edits,
  greatest, upsert_pages, upsert_trending, Answer, done, lost, wait_for_database, write,
}
use wikistream_kafka.Sinks.Recount.{recount_harmless}
use wikistream_kafka.Sinks.Storage.{
  PostgresSink, started, Polled, received, assigned, on_assign, on_revoke, serve, stop,
  collect_batch, decode_all, commit_all, after_write, write_batch, write_collected, turn,
}
use wikistream_kafka.Sinks.Cover.{Justified}
use wikistream_kafka.Sinks.Exactly.{Run, start, round, restart, stored_once}

program : Unit {0}
unfolding contains Dict.get Dict.put Dict.remove Dict.get_or is_revert as_row insert_row
    insert_pages insert_rows edit_rows insert_edits greatest upsert_pages upsert_trending
    wait_for_database write on_assign on_revoke serve stop collect_batch decode_all commit_all
    after_write write_batch write_collected turn
program = tt

abbrev e1 : CleanEvent
e1 = record {
  event_id = "e1";
  wiki = "enwiki";
  title = "A";
  type = "edit";
  namespace = pos 0;
  user = "u";
  bot = false;
  minor = false;
  comment = "undid";
  event_time = "T";
  rev_old = none;
  rev_new = none;
  length_old = none;
  length_new = none;
  server_name = "";
  log_type = none;
  log_action = none;
}

abbrev undoes : String → Bool
undoes s = s == "undid"

-- The same event twice in a batch makes one row.
one_row : (insert_edits undoes [] (e1 ∷ e1 ∷ [])).table ≡ ("e1", as_row undoes e1) ∷ []
unfolding program
one_row = refl

counts_one : (insert_edits undoes [] (e1 ∷ e1 ∷ [])).rowcount ≡ 1
unfolding program
counts_one = refl

marks_revert : (as_row undoes e1).is_revert ≡ true
unfolding program
marks_revert = refl

abbrev insert_one : Dict String EditRow → Written (Dict String EditRow)
insert_one t = insert_rows t (("e1", as_row undoes e1) ∷ [])

-- The connection is lost after the commit, comes back at the second try, and the row is there.
abbrev answers : List Answer
answers = lost true (false ∷ true ∷ []) ∷ done ∷ []

reconnects_once : (write insert_one [] 0 answers).reconnects ≡ 1
unfolding program
reconnects_once = refl

abbrev total : ℕ → List ClosedWindow
total n = record { wiki = "enwiki"; title = "A"; minute_ms = 60000; count = n } ∷ []

abbrev enwiki : WindowKey
enwiki = record { wiki = "enwiki"; title = "A"; minute = 60000 }

abbrev wrote : ℕ → Written (Dict WindowKey ℕ)
wrote n = record { table = (enwiki, n) ∷ []; rowcount = 1 }

first_write : upsert_trending [] (total 5) ≡ some (wrote 5)
unfolding program
first_write = refl

second_write : upsert_trending (wrote 5).table (total 3) ≡ some (wrote 5)
unfolding program
second_write = refl

-- A statement that names a page and minute twice fails.
twice_fails : upsert_trending [] (total 5 ++ total 6) ≡ none
unfolding program
twice_fails = refl

recount_harmless_example : (wrote 5).table ≡ (wrote 5).table
recount_harmless_example =
    recount_harmless [] (total 5) (total 3) (wrote 5) (wrote 5) first_write second_write
      ((_, inl refl, refl, omega arith), tt)

abbrev log : ℕ → ℕ → Option (List ℕ)
log q o = if o == 0 then some (7 ∷ []) else none

abbrev decode : List ℕ → Option CleanEvent
decode v = some e1

abbrev key : CleanEvent → String
key e = e.event_id

abbrev polls : List Polled
polls = assigned (2 ∷ []) ∷ received (record { partition = 2; offset = 0; value = 7 ∷ [] }) ∷ []

-- The rows are committed and the offset is not; a new process reads the message again.
abbrev crashed : PostgresSink EditRow
crashed = (turn decode key (as_row undoes) (started [] []) polls (done ∷ []) false).0

abbrev again : PostgresSink EditRow
again =
    (turn decode key (as_row undoes) (started crashed.table crashed.committed) polls (done ∷ [])
      true).0

skips_copy : again.committed ≡ (2, 1) ∷ []
unfolding program
skips_copy = refl

no_gap : (o : ℕ) → 0 ≤ o → o < 0 → log 2 o ≡ none
no_gap o h l = absurd (omega arith)

again-Run : Run decode key (as_row undoes) log again true
unfolding program
again-Run =
    round (restart (round start polls (done ∷ []) false ((0, refl, omega arith, refl, no_gap), tt)))
      polls (done ∷ []) true ((0, refl, omega arith, refl, no_gap), tt)

stored_once_example :
    ((q p o : ℕ) (value : List ℕ) (e : CleanEvent)
      → Dict.get again.committed q ≡ some p
      → o < p
      → log q o ≡ some value
      → decode value ≡ some e
      → (v : EditRow) × (Dict.get again.table (key e) ≡ some v))
    × Distinct again.table
    × All (Justified decode key (as_row undoes) log) again.table
stored_once_example = stored_once decode key (as_row undoes) log again-Run
