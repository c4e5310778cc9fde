-- ===== src/Tests/Partitions.antt =====
-- processors/edit_war.py on small inputs.
use wikistream_kafka.Prelude.{
  ℕ, ◌≡◌, refl, true, false, none, some, List, [], ◌∷◌, contains, insert, filter, nat_eq, string_eq,
}
use wikistream_kafka.Prelude.Int.{pos}
use wikistream_kafka.Dict
use wikistream_kafka.Models.{CleanEvent, is_revert, key_for}
use wikistream_kafka.Transform.{event_time_ms}
use wikistream_kafka.Trending.{Readers, Message}
use wikistream_kafka.EditWar.{
  Runtime, evict, users_of, insert_sorted, sorted, last, alert_id_for, alert_of, observe_page,
  observe,
}
use wikistream_kafka.WarProcessor.{
  EditWarProcessor, edit_war_processor, detector_for, observe_in, handle, replay_into, replay, warm,
}
use wikistream_kafka.WarProcessor.Apart.{handle_all, only, detector_for-handle_all}

program : Unit {0}
unfolding contains insert filter Dict.get Dict.put Dict.get_or is_revert key_for evict users_of
    insert_sorted sorted last alert_id_for alert_of observe_page observe event_time_ms detector_for
    observe_in handle replay_into replay warm handle_all
program = tt

abbrev rt : Runtime
rt = record {
  iso = λ ms. "time";
  sha256_hex = λ s. "0123456789abcdef0123456789abcdef0123456789abcdef0123456789abcdef";
  is_revert_comment = λ c. true;
}

abbrev event : CleanEvent
event = record {
  event_id = "e1";
  wiki = "enwiki";
  title = "A";
  type = "edit";
  namespace = pos 0;
  user = "X";
  bot = false;
  minor = false;
  comment = "undo";
  event_time = "T";
  rev_old = none;
  rev_new = none;
  length_old = none;
  length_new = none;
  server_name = "";
  log_type = none;
  log_action = none;
}

abbrev readers : Readers
readers = record { from_json = λ s. some event; event_ms = λ s. some 1000 }

abbrev message : ℕ → Message
message p = record { partition = p; offset = 10; timestamp = 1000; value = "{}" }

abbrev messages : List Message
messages = message 0 ∷ message 1 ∷ message 0 ∷ []

abbrev fresh : EditWarProcessor
fresh = edit_war_processor 0

counts : (detector_for (handle_all rt readers fresh messages) 0).reverts_seen ≡ 2
unfolding program
counts = refl

detector_for-handle_all_example :
    detector_for (handle_all rt readers fresh messages) 0
    ≡ replay rt readers (detector_for fresh 0) (only 0 messages)
detector_for-handle_all_example = detector_for-handle_all rt readers fresh messages 0
