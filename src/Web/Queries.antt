-- ===== src/Web/Queries.antt =====
-- web/queries.py: the questions to PostgreSQL, with the part of the SQL that selects and counts.
--
-- A time is its epoch milliseconds, and a minute the time at which it starts. `date_trunc` and
-- `replace(second=0, microsecond=0)` are `trunc`.
pub mod Series
use wikistream_kafka.Prelude.{
  ℕ, zero, suc, ◌+◌, ◌-◌, ◌*◌, ◌/◌, ◌≡◌, ◌↔◌, arith, min, max, String, Bool, true, false, not, ◌&&◌,
  ◌||◌, Option, none, some, List, [], ◌∷◌, map, length, take, ltb, leb, Keyed, ◌==◌, filter,
  contains, insert, if◌then◌else◌, string_eq, nat_eq,
}
use wikistream_kafka.Prelude.Int.{ℤ, ◌-ℤ◌, pos}
use wikistream_kafka.Dict
use wikistream_kafka.Dict.{Dict}

abbrev pub min_minutes : ℕ
min_minutes = 5

abbrev pub max_minutes : ℕ
max_minutes = 6 * 60

abbrev pub minute_ms : ℕ
minute_ms = 60000

unfoldable pub clamp_minutes : ℕ → ℕ
clamp_minutes minutes = max min_minutes (min max_minutes minutes)

unfoldable pub trunc : ℕ → ℕ
trunc t = (t / minute_ms) * minute_ms

-- The `while` loop of `minute_series`: one count for each minute from `minute` on.
unfoldable pub series_from : Dict ℕ ℕ → ℕ → ℕ → List ℕ
series_from counts minute zero = []
series_from counts minute (suc n) =
    Dict.get_or counts minute 0 ∷ series_from counts (minute + minute_ms) n

-- The counts of the series; the minutes are `start`, `start + minute_ms` and so on.
unfoldable pub minute_series : Dict ℕ ℕ → ℕ → ℕ → List ℕ
minute_series counts minutes now = series_from counts (trunc now - minutes * minute_ms) minutes

unfoldable pub start_of_window : ℕ → ℕ → ℕ
start_of_window now minutes = now - minutes * minute_ms

-- `t > since AND t <= now`
abbrev pub in_window : ℕ → ℕ → ℕ → Bool
in_window since now t = ltb since t && leb t now

-- a row of `edits`, as the queries read it
pub record Edit : Type 0 where
  pub event_id : String
  pub wiki : String
  pub title : String
  pub type : String
  pub username : String
  pub bot : Bool
  pub minor : Bool
  -- NULL for a row stored before the column
  pub is_revert : Option Bool
  pub comment : String
  pub event_time : ℕ
  pub length_old : Option ℤ
  pub length_new : Option ℤ
  pub server_name : String
  pub ingested_at : ℕ

unfoldable pub window_edits : List Edit → ℕ → ℕ → List Edit
window_edits edits since now = filter (λ e. in_window since now e.event_time) edits

-- `GROUP BY`: how many of the keys are equal to each
unfoldable pub tally : {K : Type 0} ⦃equality : Keyed K⦄ → List K → Dict K ℕ
tally [] = []
tally (k ∷ ks) = let counts = tally ks in Dict.put counts k (Dict.get_or counts k 0 + 1)

-- `OVERVIEW_PER_MINUTE`
unfoldable pub per_minute : List Edit → ℕ → ℕ → Dict ℕ ℕ
per_minute edits since now = tally (map (λ e. trunc e.event_time) (window_edits edits since now))

-- `SELECT DISTINCT`, counted
unfoldable pub distinct : {K : Type 0} ⦃equality : Keyed K⦄ → List K → List K
distinct [] = []
distinct (k ∷ ks) = insert (distinct ks) k

abbrev pub Page : Type 0
Page = String × String

abbrev pub page_of : Edit → Page
page_of e = (e.wiki, e.title)

abbrev pub page_beq : Page → Page → Bool
page_beq a b = a.0 == b.0 && a.1 == b.1

pub page_beq_iff : (a b : Page) → (page_beq a b ≡ true) ↔ (a ≡ b)
page_beq_iff a b = ground (arith, string_eq.same_iff a.0 b.0, string_eq.same_iff a.1 b.1)

instance abbrev pub page_eq : Keyed Page
page_eq = record { same = page_beq; same_iff = page_beq_iff }

-- `MAX(…)`, NULL for no rows
unfoldable pub newest : List ℕ → Option ℕ
newest [] = none
newest (t ∷ ts) = some (elim (newest ts) [ none ↦ t | some s ↦ max t s ])

-- a row of `alerts`
pub record Alert : Type 0 where
  pub alert_id : String
  pub wiki : String
  pub title : String
  pub revert_count : ℕ
  pub users : List String
  pub window_start : ℕ
  pub window_end : ℕ
  pub detected_at : ℕ

-- `round(x / y, digits)` of two counts, and the text of a time
pub record Format : Type 0 where
  pub ratio : ℕ → ℕ → ℕ → String
  pub iso : ℕ → String
  -- `quote` of a title for a path
  pub quote : String → String

pub record Overview : Type 0 where
  pub minutes : ℕ
  pub now : ℕ
  pub edits : ℕ
  pub bot_share : String
  pub wikis : ℕ
  pub pages : ℕ
  pub edits_per_second : String
  pub edit_wars : ℕ
  pub edits_stored : ℕ
  pub newest_stored_at : Option ℕ
  pub newest_event_time : Option ℕ
  pub per_minute : List ℕ

unfoldable pub overview : Format → List Edit → List Alert → ℕ → ℕ → Overview
overview format edits alerts asked now =
    let minutes = clamp_minutes asked in
    let since = start_of_window now minutes in
    let window = window_edits edits since now in
    let bots = length (filter (λ e. e.bot) window) in
    record {
      minutes = minutes;
      now = now;
      edits = length window;
      bot_share = if length window == 0 then "0.0" else format.ratio bots (length window) 4;
      wikis = length (distinct (map (λ e. e.wiki) window));
      pages = length (distinct (map page_of window));
      edits_per_second = format.ratio (length (window_edits edits (now - minute_ms) now)) 60 2;
      edit_wars = length (filter (λ a. ltb since a.window_end && leb a.window_start now) alerts);
      edits_stored = length edits;
      newest_stored_at = newest (map (λ e. e.ingested_at) edits);
      newest_event_time = newest (map (λ e. e.event_time) edits);
      per_minute = minute_series (per_minute edits since now) minutes now;
    }
