-- ===== src/Sinks.antt =====
-- sinks/db.py and db/schema.sql: the tables, the upserts, and a connection that is opened again.
--
-- A table is the list of its rows by primary key. What PostgreSQL answers to a statement is an
-- argument.
pub mod Repeats
pub mod Retries
pub mod Recount
pub mod Storage
pub mod Cover
pub mod Stored
pub mod Exactly
use wikistream_kafka.Prelude.{
  ℕ, zero, suc, ◌+◌, ◌-◌, max, String, Bool, true, false, Option, none, some, List, [], ◌∷◌, map,
  Keyed, ◌==◌, contains, if◌then◌else◌, string_eq,
}
use wikistream_kafka.Prelude.Int.{ℤ}
use wikistream_kafka.Dict
use wikistream_kafka.Dict.{Dict}
use wikistream_kafka.Models.{CleanEvent, is_revert}
use wikistream_kafka.EditWar.{EditWarAlert}
use wikistream_kafka.Windows.{WindowKey, ClosedWindow, key_eq}

-- a row of `edits`, without the time of its insertion
pub record EditRow : Type 0 where
  pub event_id : String
  pub wiki : String
  pub title : String
  pub type : String
  pub namespace : ℤ
  pub username : String
  pub bot : Bool
  pub minor : Bool
  pub comment : String
  pub event_time : String
  pub rev_old : Option ℤ
  pub rev_new : Option ℤ
  pub length_old : Option ℤ
  pub length_new : Option ℤ
  pub server_name : String
  pub is_revert : Bool

unfoldable pub as_row : (String → Bool) → CleanEvent → EditRow
as_row is_revert_comment event = record {
  event_id = event.event_id;
  wiki = event.wiki;
  title = event.title;
  type = event.type;
  namespace = event.namespace;
  username = event.user;
  bot = event.bot;
  minor = event.minor;
  comment = event.comment;
  event_time = event.event_time;
  rev_old = event.rev_old;
  rev_new = event.rev_new;
  length_old = event.length_old;
  length_new = event.length_new;
  server_name = event.server_name;
  is_revert = is_revert is_revert_comment event;
}

-- a row of `alerts`, without the time of its insertion
pub record AlertRow : Type 0 where
  pub alert_id : String
  pub wiki : String
  pub title : String
  pub revert_count : ℕ
  pub users : List String
  pub window_start : String
  pub window_end : String

abbrev pub page_size : ℕ
page_size = 500

-- The rows of a statement that it inserted or changed, and the table after it.
pub record Written {ℓ} (Table : Type ℓ) : Type ℓ where
  pub table : Table
  pub rowcount : ℕ

module _ {K V : Type 0} ⦃equality : Keyed K⦄ where
  -- `ON CONFLICT (…) DO NOTHING`, for one row
  unfoldable pub insert_row : Dict K V → K × V → Dict K V
  insert_row table (k, v) = elim (Dict.get table k) [ none ↦ Dict.put table k v | some old ↦ table ]

  abbrev pub inserted : Dict K V → K → ℕ
  inserted table k = elim (Dict.get table k) [ none ↦ 1 | some old ↦ 0 ]

  -- `execute_values`: a statement for each page of rows, in one transaction. `room` rows still fit
  -- into the page; the cursor's rowcount is that of the last page.
  unfoldable pub insert_pages : Dict K V → ℕ → ℕ → List (K × V) → Written (Dict K V)
  insert_pages table rowcount room [] = record { table = table; rowcount = rowcount }
  insert_pages table rowcount zero (row ∷ rows) =
      insert_pages (insert_row table row) (inserted table row.0) (page_size - 1) rows
  insert_pages table rowcount (suc room) (row ∷ rows) =
      insert_pages (insert_row table row) (rowcount + inserted table row.0) room rows

  -- `if not rows: return 0`, and the statements
  unfoldable pub insert_rows : Dict K V → List (K × V) → Written (Dict K V)
  insert_rows table rows = insert_pages table 0 page_size rows

unfoldable pub edit_rows : (String → Bool) → List CleanEvent → List (String × EditRow)
edit_rows is_revert_comment = map (λ e. (e.event_id, as_row is_revert_comment e))

unfoldable pub insert_edits :
    (String → Bool) → Dict String EditRow → List CleanEvent → Written (Dict String EditRow)
insert_edits is_revert_comment table events = insert_rows table (edit_rows is_revert_comment events)

unfoldable pub alert_rows : List EditWarAlert → List (String × AlertRow)
alert_rows = map (λ a. (
  a.alert_id,
  record {
    alert_id = a.alert_id;
    wiki = a.wiki;
    title = a.title;
    revert_count = a.revert_count;
    users = a.users;
    window_start = a.window_start;
    window_end = a.window_end;
  },
))

unfoldable pub insert_alerts :
    Dict String AlertRow → List EditWarAlert → Written (Dict String AlertRow)
insert_alerts table alerts = insert_rows table (alert_rows alerts)

abbrev pub row_key : ClosedWindow → WindowKey
row_key w = record { wiki = w.wiki; title = w.title; minute = w.minute_ms }

-- `GREATEST(trending_minutes.edit_count, EXCLUDED.edit_count)`, or the new row's count
abbrev pub total : Option ℕ → ℕ → ℕ
total none count = count
total (some old) count = max old count

-- `ON CONFLICT (…) DO UPDATE`, for one row
unfoldable pub greatest : Dict WindowKey ℕ → ClosedWindow → Dict WindowKey ℕ
greatest table w = Dict.put table (row_key w) (total (Dict.get table (row_key w)) w.count)

-- A statement that names a key twice fails, and with it the transaction: `touched` are the keys of
-- the page so far.
unfoldable pub upsert_pages :
    Dict WindowKey ℕ
    → ℕ
    → List WindowKey
    → ℕ
    → List ClosedWindow
    → Option (Written (Dict WindowKey ℕ))
upsert_pages table rowcount touched room [] = some (record { table = table; rowcount = rowcount })
upsert_pages table rowcount touched zero (w ∷ counts) =
    upsert_pages (greatest table w) 1 (row_key w ∷ []) (page_size - 1) counts
upsert_pages table rowcount touched (suc room) (w ∷ counts) =
    let rest = upsert_pages (greatest table w) (rowcount + 1) (row_key w ∷ touched) room counts in
    if contains touched (row_key w) then none else rest

unfoldable pub upsert_trending :
    Dict WindowKey ℕ → List ClosedWindow → Option (Written (Dict WindowKey ℕ))
upsert_trending table counts = upsert_pages table 0 [] page_size counts

-- What becomes of one try of a write: it is committed; the connection is lost, before the commit or
-- after it, and the server answers or not to each try to connect again; or it fails in a way that a
-- new connection does not help.
pub data Answer : Type 0 where
  done : Answer
  lost : (applied : Bool) → (connects : List Bool) → Answer
  refused : Answer

-- `wait_for_database`: whether one of the first `retries` tries connects.
unfoldable pub wait_for_database : ℕ → List Bool → Bool
wait_for_database zero connects = false
wait_for_database (suc retries) [] = false
wait_for_database (suc retries) (true ∷ connects) = true
wait_for_database (suc retries) (false ∷ connects) = wait_for_database retries connects

abbrev pub reconnect_retries : ℕ
reconnect_retries = 30

-- How a write ends: it returns the rowcount; it raises; or no answer has come yet.
pub data Ending : Type 0 where
  returned : ℕ → Ending
  gave_up : Ending
  unanswered : Ending

pub record Attempted {ℓ} (Table : Type ℓ) : Type ℓ where
  pub table : Table
  pub ending : Ending
  pub reconnects : ℕ

-- `Database.write`, over the answers to its tries
unfoldable pub write {ℓ} :
    {Table : Type ℓ} → (Table → Written Table) → Table → ℕ → List Answer → Attempted Table
write operation table reconnects [] = record {
  table = table;
  ending = unanswered;
  reconnects = reconnects;
}
write operation table reconnects (done ∷ answers) =
    let w = operation table in
    record { table = w.table; ending = returned w.rowcount; reconnects = reconnects }
write operation table reconnects (refused ∷ answers) = record {
  table = table;
  ending = gave_up;
  reconnects = reconnects;
}
write operation table reconnects (lost applied connects ∷ answers) =
    let left = if applied then (operation table).table else table in
    let again = write operation left (reconnects + 1) answers in
    if wait_for_database reconnect_retries connects
    then again
    else record { table = left; ending = gave_up; reconnects = reconnects }
