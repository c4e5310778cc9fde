-- ===== src/EditWar.antt =====
-- processors/edit_war_detector.py: repeated reverts of one page by more than one person.
--
-- Times are milliseconds since 1970 and natural numbers. `evict` and `expire` subtract, and stop
-- at 0 where Python goes below it: no time lies before either, so their tests answer the same.
-- `alerted_until_ms` is -1 before the first alert, which is `none` here.
-- What the standard library computes (a date as text, a digest, a search by a regular expression)
-- is a `Runtime`.
pub mod Order
pub mod Alerts
pub mod Expire
pub mod Quiet
use Prim.Native.String.{slice, compare}
use text.Mathlib.Text.{is_le}
use wikistream_kafka.Prelude.{
  ℕ, suc, ◌+◌, ◌-◌, ◌*◌, max, String, Bool, true, false, not, ◌&&◌, ◌||◌, Option, none, some, List,
  [], ◌∷◌, ◌++◌, map, nat_eq, string_eq, ◌==◌, insert, ltb, leb, if◌then◌else◌, length, filter,
  append_text,
}
use wikistream_kafka.Dict
use wikistream_kafka.Dict.{Dict, keys}
use wikistream_kafka.Dict.Bulk.{delete_all}
use wikistream_kafka.Models.{CleanEvent, page_key, key_for, is_revert}

pub record Runtime : Type 0 where
  pub iso : ℕ → String
  pub sha256_hex : String → String
  pub is_revert_comment : String → Bool

abbrev pub default_window_ms : ℕ
default_window_ms = 30 * 60000

pub record Revert : Type 0 where
  pub event_id : String
  pub user : String
  pub time_ms : ℕ

pub record EditWarAlert : Type 0 where
  pub alert_id : String
  pub wiki : String
  pub title : String
  pub revert_count : ℕ
  pub users : List String
  pub event_ids : List String
  pub window_start : String
  pub window_end : String

unfoldable pub alert_id_for : Runtime → String → String → String → String
alert_id_for rt wiki title first_event_id =
    slice
      (rt.sha256_hex
        (append_text wiki (append_text "\0" (append_text title (append_text "\0" first_event_id)))))
      0 32

pub record PageState : Type 0 where
  pub reverts : List Revert
  pub alerted_until_ms : Option ℕ

abbrev pub new_page : PageState
new_page = record { reverts = []; alerted_until_ms = none }

pub record EditWarDetector : Type 0 where
  pub window_ms : ℕ
  pub min_reverts : ℕ
  pub min_users : ℕ
  pub ignore_bots : Bool
  pub pages : Dict String PageState
  pub watermark_ms : ℕ
  pub reverts_seen : ℕ
  pub alerts_raised : ℕ

abbrev pub edit_war_detector : ℕ → ℕ → ℕ → Bool → EditWarDetector
edit_war_detector window_ms min_reverts min_users ignore_bots = record {
  window_ms = window_ms;
  min_reverts = min_reverts;
  min_users = min_users;
  ignore_bots = ignore_bots;
  pages = [];
  watermark_ms = 0;
  reverts_seen = 0;
  alerts_raised = 0;
}

-- `EditWarDetector()`
abbrev pub default_detector : EditWarDetector
default_detector = edit_war_detector default_window_ms 3 2 true

-- `_evict`, on the deque of a page
unfoldable pub evict : ℕ → ℕ → List Revert → List Revert
evict window_ms now_ms [] = []
evict window_ms now_ms (r ∷ rest) =
    let popped = evict window_ms now_ms rest in
    if ltb r.time_ms (now_ms - window_ms) then popped else r ∷ rest

-- the set of users
unfoldable pub users_of : List Revert → List String
users_of [] = []
users_of (r ∷ rest) = insert (users_of rest) r.user

-- The order of the key `(r.time_ms, r.event_id)`.
abbrev pub text_le : String → String → Bool
text_le s t = is_le (compare s t)

abbrev pub revert_le : Revert → Revert → Bool
revert_le a b = ltb a.time_ms b.time_ms || (a.time_ms == b.time_ms && text_le a.event_id b.event_id)

-- `sorted`, which is stable: by insertion from the right
unfoldable pub insert_sorted : {A : Type 0} → (A → A → Bool) → A → List A → List A
insert_sorted le x [] = x ∷ []
insert_sorted le x (y ∷ ys) =
    let rest = insert_sorted le x ys in if le x y then x ∷ y ∷ ys else y ∷ rest

unfoldable pub sorted : {A : Type 0} → (A → A → Bool) → List A → List A
sorted le [] = []
sorted le (x ∷ xs) = insert_sorted le x (sorted le xs)

-- `xs[0]` and `xs[-1]`, of a list that is not empty there
abbrev pub first : Revert → List Revert → Revert
first r [] = r
first r (x ∷ xs) = x

unfoldable pub last : Revert → List Revert → Revert
last r [] = r
last r (x ∷ xs) = last x xs

-- the alert that `observe` returns
unfoldable pub alert_of : Runtime → CleanEvent → Revert → List Revert → EditWarAlert
alert_of rt e latest page_reverts =
    let reverts = sorted revert_le page_reverts in
    record {
      alert_id = alert_id_for rt e.wiki e.title (first latest reverts).event_id;
      wiki = e.wiki;
      title = e.title;
      revert_count = length reverts;
      users = sorted text_le (users_of page_reverts);
      event_ids = map (λ (r : Revert). r.event_id) reverts;
      window_start = rt.iso (first latest reverts).time_ms;
      window_end = rt.iso (last latest reverts).time_ms;
    }

-- `time_ms <= state.alerted_until_ms`
abbrev pub alerted_at : PageState → ℕ → Bool
alerted_at s time_ms = elim s.alerted_until_ms [ none ↦ false | some until ↦ leb time_ms until ]

abbrev pub too_few : EditWarDetector → List Revert → Bool
too_few d reverts =
    ltb (length reverts) d.min_reverts || ltb (length (users_of reverts)) d.min_users

-- `observe` on the state of the event's page, once the event counts as a revert.
unfoldable pub observe_page :
    Runtime → EditWarDetector → PageState → CleanEvent → ℕ → PageState × Option EditWarAlert
observe_page rt d s e time_ms =
    let latest : Revert = record { event_id = e.event_id; user = e.user; time_ms = time_ms } in
    let reverts = evict d.window_ms time_ms (s.reverts ++ latest ∷ []) in
    let quiet : PageState = record { reverts = reverts; alerted_until_ms = s.alerted_until_ms } in
    let warned : PageState = record {
      reverts = reverts;
      alerted_until_ms = some (time_ms + d.window_ms);
    } in
    if alerted_at s time_ms
    then (warned, none)
    else if too_few d reverts
    then (quiet, none)
    else (warned, some (alert_of rt e latest reverts))

-- the events that `observe` does not count
abbrev pub ignored : Runtime → EditWarDetector → CleanEvent → Bool
ignored rt d e = not (is_revert rt.is_revert_comment e) || (d.ignore_bots && e.bot)

unfoldable pub observe :
    Runtime → EditWarDetector → CleanEvent → ℕ → EditWarDetector × Option EditWarAlert
observe rt d e time_ms =
    let d' : EditWarDetector = record d { watermark_ms = max d.watermark_ms time_ms } in
    let (page, alert) = observe_page rt d (Dict.get_or d.pages (page_key e) new_page) e time_ms in
    let seen : EditWarDetector = record d' {
      reverts_seen = d.reverts_seen + 1;
      pages = Dict.put d.pages (page_key e) page;
    } in
    if ignored rt d e then (d', none) else elim alert [
      | none ↦ (seen, none)
      | some a ↦ (record seen { alerts_raised = d.alerts_raised + 1 }, some a)
    ]

-- the test of `expire`
abbrev pub is_stale : ℕ → ℕ → PageState → Bool
is_stale window_ms watermark_ms s =
    (elim s.reverts [ [] ↦ true | r ∷ rest ↦ ltb (last r rest).time_ms (watermark_ms - window_ms) ])
    && (elim s.alerted_until_ms [ none ↦ true | some until ↦ ltb until watermark_ms ])

unfoldable pub stale_keys : ℕ → ℕ → Dict String PageState → List String
stale_keys window_ms watermark_ms [] = []
stale_keys window_ms watermark_ms ((k, s) ∷ rest) =
    let others = stale_keys window_ms watermark_ms rest in
    if is_stale window_ms watermark_ms s then k ∷ others else others

unfoldable pub expire : EditWarDetector → EditWarDetector × ℕ
expire d =
    let stale = stale_keys d.window_ms d.watermark_ms d.pages in
    (record d { pages = delete_all d.pages stale }, length stale)

unfoldable pub forget : EditWarDetector → List String → EditWarDetector
forget d page_keys = record d { pages = delete_all d.pages page_keys }

pub record Stats : Type 0 where
  pub pages_tracked : ℕ
  pub reverts_seen : ℕ
  pub alerts_raised : ℕ

unfoldable pub stats : EditWarDetector → Stats
stats d = record {
  pages_tracked = length d.pages;
  reverts_seen = d.reverts_seen;
  alerts_raised = d.alerts_raised;
}
