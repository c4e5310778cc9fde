-- ===== src/Admin.antt =====
-- admin/create_topics.py, admin/wait_for_leaders.py, admin/backfill_reverts.py and the waiting of
-- common/topics.py: what the administration does to topics and rows.
pub mod Converges
pub mod Backfill
use wikistream_kafka.Prelude.{
  ℕ, zero, suc, ◌+◌, ◌-◌, String, Bool, true, false, not, ◌&&◌, ◌||◌, Option, none, some, List, [],
  ◌∷◌, ◌++◌, map, length, ltb, leb, ◌==◌, filter, contains, if◌then◌else◌, string_eq, nat_eq,
}
use wikistream_kafka.Dict
use wikistream_kafka.Dict.{Dict, keys}
use wikistream_kafka.Config.{TopicSpec, update}

-- A topic of the cluster: its partitions and the settings that differ from the broker's.
pub record Topic : Type 0 where
  pub partitions : ℕ
  pub config : Dict String String

abbrev pub Cluster : Type 0
Cluster = Dict String Topic

-- `{"min.insync.replicas": …, **spec.config}`
unfoldable pub topic_config : String → TopicSpec → Dict String String
topic_config min_insync spec = update (("min.insync.replicas", min_insync) ∷ []) spec.config

-- a loop over the specs
unfoldable pub for_each : (TopicSpec → Cluster → Cluster) → List TopicSpec → Cluster → Cluster
for_each step [] cluster = cluster
for_each step (spec ∷ specs) cluster = for_each step specs (step spec cluster)

abbrev pub new_topic : String → TopicSpec → Topic
new_topic min_insync spec = record {
  partitions = spec.partitions;
  config = topic_config min_insync spec;
}

-- `create_missing`: the broker creates a new topic, or refuses and the loop goes on.
unfoldable pub create_one :
    String → (accepts : String → Bool) → List String → TopicSpec → Cluster → Cluster
create_one min_insync accepts existing spec cluster =
    if contains existing spec.name || not (accepts spec.name)
    then cluster
    else Dict.put cluster spec.name (new_topic min_insync spec)

unfoldable pub create_missing :
    String → (accepts : String → Bool) → List String → List TopicSpec → Cluster → Cluster
create_missing min_insync accepts existing specs cluster =
    for_each (create_one min_insync accepts existing) specs cluster

-- an incremental alteration, which the broker is taken to accept: the settings of the spec are set,
-- others stay
unfoldable pub set_config : Cluster → String → Dict String String → Cluster
set_config cluster name config = elim (Dict.get cluster name) [
  | none ↦ cluster
  | some t ↦ Dict.put cluster name (record t { config = update t.config config })
]

unfoldable pub sync_one : String → List String → TopicSpec → Cluster → Cluster
sync_one min_insync existing spec cluster =
    if contains existing spec.name
    then set_config cluster spec.name (topic_config min_insync spec)
    else cluster

unfoldable pub sync_configs : String → List String → List TopicSpec → Cluster → Cluster
sync_configs min_insync existing specs cluster =
    for_each (sync_one min_insync existing) specs cluster

-- the names that `check_partitions` warns about
unfoldable pub check_partitions : List TopicSpec → Cluster → List String
check_partitions [] cluster = []
check_partitions (spec ∷ specs) cluster =
    let rest = check_partitions specs cluster in
    elim (Dict.get cluster spec.name) [
      | none ↦ rest
      | some t ↦ if t.partitions == spec.partitions then rest else spec.name ∷ rest
    ]

-- `main` of create_topics
unfoldable pub create_topics : String → (String → Bool) → List TopicSpec → Cluster → Cluster
create_topics min_insync accepts specs cluster =
    let existing = keys cluster in
    sync_configs min_insync existing specs
      (create_missing min_insync accepts existing specs cluster)

-- the metadata of a partition: its leader, `none` for -1
pub record Replicas : Type 0 where
  pub leader : Option ℕ
  pub replicas : ℕ
  pub isrs : ℕ

unfoldable pub led_away_from : List Replicas → ℕ → Bool
led_away_from [] broker = true
led_away_from (p ∷ partitions) broker =
    elim p.leader [ none ↦ false | some b ↦ not (b == broker) ] && led_away_from partitions broker

unfoldable pub fully_in_sync : List Replicas → Bool
fully_in_sync [] = true
fully_in_sync (p ∷ partitions) = p.isrs == p.replicas && fully_in_sync partitions

-- `wait`, over what each round before the deadline sees: the time and the metadata, or an exception.
unfoldable pub wait : (List Replicas → Bool) → ℕ → List (ℕ × Option (List Replicas)) → Option ℕ
wait check start_ms [] = none
wait check start_ms ((now_ms, none) ∷ rounds) = wait check start_ms rounds
wait check start_ms ((now_ms, some partitions) ∷ rounds) =
    let later = wait check start_ms rounds in
    if check partitions then some (now_ms - start_ms) else later

-- The metadata of topics: the number of partitions, or an error.
unfoldable pub missing_topics : Dict String (Option ℕ) → List String → List String
missing_topics metadata [] = []
missing_topics metadata (name ∷ topics) =
    let rest = missing_topics metadata topics in
    elim (Dict.get metadata name) [
      | none ↦ name ∷ rest
      | some known ↦ elim known [
        | none ↦ name ∷ rest
        | some n ↦ if n == 0 then name ∷ rest else rest
      ]
    ]

-- `wait_for_topics`, over the metadata that its rounds see until the deadline: whether it returns;
-- otherwise it raises.
unfoldable pub wait_for_topics : List (Dict String (Option ℕ)) → List String → Bool
wait_for_topics [] topics = false
wait_for_topics (metadata ∷ rounds) topics =
    let later = wait_for_topics rounds topics in
    elim (missing_topics metadata topics) [ [] ↦ true | name ∷ names ↦ later ]

-- A row of `edits` as the backfill reads and writes it.
pub record Edit : Type 0 where
  pub event_id : String
  pub type : String
  pub comment : String
  pub is_revert : Option Bool

abbrev pub unknown : Edit → Bool
unknown e = elim e.is_revert [ none ↦ true | some b ↦ false ]

abbrev pub verdict : (String → Bool) → Edit → Bool
verdict is_revert_comment e = e.type == "edit" && is_revert_comment e.comment

-- One batch: as many rows whose flag is NULL as there is room for, the first ones here, get their
-- flag.
unfoldable pub fill : (String → Bool) → ℕ → List Edit → List Edit
fill is_revert_comment room [] = []
fill is_revert_comment room (e ∷ edits) =
    let chosen = unknown e && ltb 0 room in
    let rest = fill is_revert_comment (if chosen then room - 1 else room) edits in
    (if chosen then record e { is_revert = some (verdict is_revert_comment e) } else e) ∷ rest

-- The loop of `main`, on fuel: it ends at the first batch with no row.
unfoldable pub backfill : (String → Bool) → ℕ → ℕ → List Edit → Option (List Edit)
backfill is_revert_comment batch zero edits = none
backfill is_revert_comment batch (suc fuel) edits =
    let again = backfill is_revert_comment batch fuel (fill is_revert_comment batch edits) in
    if length (filter unknown edits) == 0 then some edits else again
