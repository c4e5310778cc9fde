-- ===== src/Tests/Wars.antt =====
-- processors/edit_war_detector.py on small inputs.
use wikistream_kafka.Prelude.{
  ◌≡◌, refl, String, true, false, none, some, [], ◌∷◌, contains, insert, filter, arith, List, ◌++◌,
}
use wikistream_kafka.Prelude.Int.{pos}
use wikistream_kafka.Dict
use wikistream_kafka.Dict.Bulk.{delete_all}
use wikistream_kafka.Models.{CleanEvent, is_revert, key_for, page_key}
use wikistream_kafka.EditWar.{
  Runtime, Revert, EditWarAlert, PageState, EditWarDetector, edit_war_detector, evict, users_of,
  insert_sorted, sorted, last, alert_id_for, alert_of, observe_page, ignored, observe, stale_keys,
  expire,
}
use wikistream_kafka.EditWar.Order.{IsJustified, revert_of}
use wikistream_kafka.EditWar.Alerts.{recorded_after, Seen, fresh, observed, observe-IsJustified}
use wikistream_kafka.EditWar.Expire.{expire-observe}
use wikistream_kafka.EditWar.Quiet.{watch, one_alert_per_war}

program : Unit {0}
unfolding contains insert filter Dict.get Dict.put Dict.remove Dict.get_or delete_all is_revert
    key_for evict users_of insert_sorted sorted last alert_id_for alert_of observe_page observe
    stale_keys expire watch
program = tt

-- Dates, digests and the search stand in by simple functions.
abbrev rt : Runtime
rt = record {
  iso = λ ms. "time";
  sha256_hex = λ s. "0123456789abcdef0123456789abcdef0123456789abcdef0123456789abcdef";
  is_revert_comment = λ c. true;
}

abbrev revert_by : String → String → CleanEvent
revert_by event_id user = record {
  event_id = event_id;
  wiki = "enwiki";
  title = "A";
  type = "edit";
  namespace = pos 0;
  user = user;
  bot = false;
  minor = false;
  comment = "undo";
  event_time = "2026-01-01T00:00:00+00:00";
  rev_old = none;
  rev_new = none;
  length_old = none;
  length_new = none;
  server_name = "en.wikipedia.org";
  log_type = none;
  log_action = none;
}

-- Three reverts in 100 ms, by two people.
abbrev detector : EditWarDetector
detector = edit_war_detector 100 3 2 true

abbrev after_two : EditWarDetector
after_two =
    (observe rt (observe rt detector (revert_by "e1" "X") 1000).0 (revert_by "e2" "Y") 1010).0

raises : (observe rt after_two (revert_by "e3" "X") 1020).0.alerts_raised ≡ 1
unfolding program
raises = refl

one_user_is_no_war :
    (observe rt
      (observe rt (observe rt detector (revert_by "e1" "X") 1000).0 (revert_by "e2" "X") 1010).0
      (revert_by "e3" "X")
      1020).1
    ≡ none
unfolding program
one_user_is_no_war = refl

abbrev third : CleanEvent
third = revert_by "e3" "X"

abbrev alert : EditWarAlert
alert = record {
  alert_id = "0123456789abcdef0123456789abcdef";
  wiki = "enwiki";
  title = "A";
  revert_count = 3;
  users = "X" ∷ "Y" ∷ [];
  event_ids = "e1" ∷ "e2" ∷ "e3" ∷ [];
  window_start = "time";
  window_end = "time";
}

abbrev none_yet : String → List Revert
none_yet key = []

abbrev two_recorded : String → List Revert
two_recorded =
    recorded_after rt (observe rt detector (revert_by "e1" "X") 1000).0 (revert_by "e2" "Y") 1010
      (recorded_after rt detector (revert_by "e1" "X") 1000 none_yet)

seen_two : Seen rt after_two two_recorded
unfolding program
seen_two =
    observed (observed (fresh 100 3 2 true) (revert_by "e1" "X") 1000 (omega arith))
      (revert_by "e2" "Y") 1010 (omega arith)

observe-IsJustified_example :
    (ignored rt after_two third ≡ false)
    × IsJustified after_two third 1020
        (two_recorded (page_key third) ++ revert_of third 1020 ∷ [])
        alert
unfolding program
observe-IsJustified_example =
    observe-IsJustified rt after_two third 1020 alert two_recorded seen_two (omega arith) refl

expire-observe_example :
    (observe rt (expire after_two).0 third 5000).1 ≡ (observe rt after_two third 5000).1
unfolding program
expire-observe_example =
    expire-observe rt after_two third 5000 (refl, tt)
      (record { ordered = omega arith; past = omega arith }, tt) (omega arith)

abbrev page : PageState
page = record {
  reverts =
      record { event_id = "e1"; user = "X"; time_ms = 1000 }
      ∷ record { event_id = "e2"; user = "Y"; time_ms = 1010 }
      ∷ [];
  alerted_until_ms = none;
}

one_alert_per_war_example :
    watch rt detector
      (observe_page rt detector page third 1020).0
      ((revert_by "e4" "Y", 1100) ∷ (revert_by "e5" "X", 1200) ∷ [])
    ≡ []
unfolding program
one_alert_per_war_example =
    one_alert_per_war rt detector page third 1020 alert
      ((revert_by "e4" "Y", 1100) ∷ (revert_by "e5" "X", 1200) ∷ []) refl (omega arith)

-- Out of order: the revert of time 10 came after that of time 1000 and counts at time 1001, so three
-- reverts over 991 ms raise an alert with a window of 100 ms.
spread_alert :
    (observe rt
      (observe rt (observe rt detector (revert_by "e1" "X") 1000).0 (revert_by "e0" "Y") 10).0
      (revert_by "e2" "X")
      1001).0.alerts_raised
    ≡ 1
unfolding program
spread_alert = refl

abbrev warned : PageState
warned = record page { alerted_until_ms = some 1120 }
