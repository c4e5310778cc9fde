-- ===== src/WarProcessor.antt =====
-- processors/edit_war.py: one edit war detector for each partition.
--
-- The digest, the text of a time and the search for revert phrases are the detector's Runtime, the
-- JSON and date readers are those of the other consumers of wiki.clean.
pub mod Apart
use wikistream_kafka.Prelude.{
  ℕ, ◌+◌, ◌-◌, String, Bool, true, false, Option, none, some, List, [], ◌∷◌, leb, nat_eq,
  if◌then◌else◌,
}
use wikistream_kafka.Dict
use wikistream_kafka.Dict.{Dict}
use wikistream_kafka.Models.{CleanEvent}
use wikistream_kafka.Transform.{event_time_ms}
use wikistream_kafka.Trending.{Readers, Message}
use wikistream_kafka.EditWar.{
  Runtime, EditWarAlert, EditWarDetector, default_detector, observe, expire,
}

abbrev pub expire_interval_ms : ℕ
expire_interval_ms = 60000

pub record EditWarProcessor : Type 0 where
  pub detectors : Dict ℕ EditWarDetector
  pub alerts : ℕ
  pub last_expire : ℕ
  -- the two counts of the rate meter
  pub marked : ℕ
  pub errors : ℕ

abbrev pub edit_war_processor : ℕ → EditWarProcessor
edit_war_processor now = record {
  detectors = [];
  alerts = 0;
  last_expire = now;
  marked = 0;
  errors = 0;
}

-- `detector_for`, which also stores a new detector
unfoldable pub detector_for : EditWarProcessor → ℕ → EditWarDetector
detector_for s p = Dict.get_or s.detectors p default_detector

-- The alert that is produced to wiki.alerts, if there is one.
abbrev pub count_alert :
    EditWarProcessor → Option EditWarAlert → EditWarProcessor × List EditWarAlert
count_alert s none = (s, [])
count_alert s (some alert) = (record s { alerts = s.alerts + 1 }, alert ∷ [])

unfoldable pub observe_in :
    Runtime → EditWarProcessor → ℕ → CleanEvent → ℕ → EditWarProcessor × List EditWarAlert
observe_in rt s p e time_ms =
    let (detector, alert) = observe rt (detector_for s p) e time_ms in
    count_alert (record s { detectors = Dict.put s.detectors p detector; marked = s.marked + 1 })
      alert

unfoldable pub handle :
    Runtime → Readers → EditWarProcessor → Message → EditWarProcessor × List EditWarAlert
handle rt r s m = elim (r.from_json m.value) [
  | none ↦ (record s { errors = s.errors + 1 }, [])
  | some e ↦ observe_in rt s m.partition e (event_time_ms r.event_ms e (some m.timestamp))
]

-- `_replay_into`: the detector, and whether the record was used
unfoldable pub replay_into : Runtime → Readers → EditWarDetector → Message → EditWarDetector × Bool
replay_into rt r d m = elim (r.from_json m.value) [
  | none ↦ (d, false)
  | some e ↦ ((observe rt d e (event_time_ms r.event_ms e (some m.timestamp))).0, true)
]

-- The records that the replay of `warm` reads, one after another.
unfoldable pub replay : Runtime → Readers → EditWarDetector → List Message → EditWarDetector
replay rt r d [] = d
replay rt r d (m ∷ records) = replay rt r (replay_into rt r d m).0 records

-- `warm` for one partition: a new detector, filled from what the replay reads, if there is a commit
unfoldable pub warm :
    Runtime → Readers → EditWarProcessor → ℕ → Option (List Message) → EditWarProcessor
warm rt r s p none = record s { detectors = Dict.put s.detectors p default_detector }
warm rt r s p (some records) = record s {
  detectors = Dict.put s.detectors p (replay rt r default_detector records);
}

-- `partitions_revoked`
unfoldable pub revoked : EditWarProcessor → List ℕ → EditWarProcessor
revoked s [] = s
revoked s (p ∷ ps) = revoked (record s { detectors = Dict.remove s.detectors p }) ps

unfoldable pub expire_all : Dict ℕ EditWarDetector → Dict ℕ EditWarDetector
expire_all [] = []
expire_all ((p, d) ∷ detectors) = (p, (expire d).0) ∷ expire_all detectors

-- `periodic`
unfoldable pub periodic : EditWarProcessor → ℕ → EditWarProcessor
periodic s now =
    if leb expire_interval_ms (now - s.last_expire)
    then record s { detectors = expire_all s.detectors; last_expire = now }
    else s
