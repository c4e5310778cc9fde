-- ===== src/Web/Cluster.antt =====
-- web/cluster.py: the health of the cluster and of the consumer groups.
--
-- What the broker answers is an argument. A committed offset of -1 is `none`.
use wikistream_kafka.Config.{topic_name, scoped}
use wikistream_kafka.Prelude.{
  ℕ, zero, suc, ◌+◌, String, Bool, true, false, ◌&&◌, Option, none, some, List, [], ◌∷◌, map,
  length, ltb, leb, ◌==◌, filter, insert, if◌then◌else◌, string_eq, nat_eq,
}
use wikistream_kafka.Prelude.Int.{ℤ, pos, negsuc, sub_ℕ, ◌+ℤ◌}
use wikistream_kafka.Dict
use wikistream_kafka.Dict.{Dict, keys, values}
use wikistream_kafka.Offset.{Offset, offset_eq}

-- `GROUPS`: the groups and the topics that they read, in the order of the pipeline
unfoldable pub groups_read : String → List (String × String)
groups_read namespace =
    (scoped namespace "cleaner", topic_name namespace "raw")
    ∷ (scoped namespace "page-state", topic_name namespace "clean")
    ∷ (scoped namespace "edit-wars", topic_name namespace "clean")
    ∷ (scoped namespace "trending", topic_name namespace "clean")
    ∷ (scoped namespace "storage", topic_name namespace "clean")
    ∷ (scoped namespace "alerts-storage", topic_name namespace "alerts")
    ∷ []

pub record PartitionLag : Type 0 where
  pub partition : ℕ
  pub committed : Offset
  pub end : ℕ
  pub lag : ℤ

-- `end - offset if offset >= 0 else end`: below zero when the offset lies past the end
unfoldable pub lag_of : Offset → ℕ → ℤ
lag_of none end = pos end
lag_of (some offset) end = sub_ℕ end offset

unfoldable pub partition_lags : Dict ℕ Offset → Dict ℕ ℕ → ℕ → ℕ → List PartitionLag
partition_lags committed ends p zero = []
partition_lags committed ends p (suc n) =
    let committed_here = Dict.get_or committed p none in
    let end = Dict.get_or ends p 0 in
    record { partition = p; committed = committed_here; end = end; lag = lag_of committed_here end }
    ∷ partition_lags committed ends (p + 1) n

-- `lag <= 1`
abbrev pub at_most_one : ℤ → Bool
at_most_one (pos n) = leb n 1
at_most_one (negsuc n) = true

unfoldable pub caught_up : List PartitionLag → Bool
caught_up [] = true
caught_up (p ∷ partitions) = at_most_one p.lag && caught_up partitions

-- `sum(p["lag"] for p in per_partition)`
unfoldable pub total_lag : List PartitionLag → ℤ
total_lag [] = pos 0
total_lag (p ∷ partitions) = p.lag +ℤ total_lag partitions

pub record GroupLag : Type 0 where
  pub group : String
  pub topic : String
  pub state : String
  pub members : ℕ
  pub lag : ℤ
  pub caught_up : Bool
  pub partitions : List PartitionLag

-- An answer of the group coordinator: the offsets by topic and partition, the state and the members.
pub record GroupAnswer : Type 0 where
  pub offsets : List (String × ℕ × Offset)
  pub state : String
  pub members : ℕ

-- The offsets of one topic, by partition
unfoldable pub offsets_of : String → Dict ℕ Offset → List (String × ℕ × Offset) → Dict ℕ Offset
offsets_of topic committed [] = committed
offsets_of topic committed ((t, p, o) ∷ rest) =
    offsets_of topic (if t == topic then Dict.put committed p o else committed) rest

unfoldable pub group_lag : String → String → ℕ → Dict ℕ ℕ → GroupAnswer → GroupLag
group_lag group topic partitions ends answer =
    let per_partition = partition_lags (offsets_of topic [] answer.offsets) ends 0 partitions in
    record {
      group = group;
      topic = topic;
      state = answer.state;
      members = answer.members;
      lag = total_lag per_partition;
      caught_up = caught_up per_partition;
      partitions = per_partition;
    }

-- What the polls of `count_records` bring.
pub data Counted : Type 0 where
  nothing : Counted
  partition_eof : ℕ → Counted
  failed : Counted
  record_read : Counted

-- The loop of `count_records`, over the polls
unfoldable pub count_records : ℕ → ℕ → List ℕ → ℕ → List Counted → ℕ
count_records partitions limit finished count [] = count
count_records partitions limit finished count (nothing ∷ rest) = count
count_records partitions limit finished count (partition_eof p ∷ rest) =
    let more = count_records partitions limit (insert finished p) count rest in
    if ltb (length finished) partitions && ltb count limit then more else count
count_records partitions limit finished count (failed ∷ rest) =
    let more = count_records partitions limit finished count rest in
    if ltb (length finished) partitions && ltb count limit then more else count
count_records partitions limit finished count (record_read ∷ rest) =
    let more = count_records partitions limit finished (count + 1) rest in
    if ltb (length finished) partitions && ltb count limit then more else count

-- The metadata of a partition: its leader, `none` for -1, and how many replicas it has and are in
-- sync.
pub record Partition : Type 0 where
  pub leader : Option ℕ
  pub replicas : ℕ
  pub isrs : ℕ

abbrev pub is_short : Partition → Bool
is_short p = ltb p.isrs p.replicas

abbrev pub is_leaderless : Partition → Bool
is_leaderless p = elim p.leader [ none ↦ true | some broker ↦ false ]

-- `leaders[p.leader] = leaders.get(p.leader, 0) + 1`; -1 is a leader here too
unfoldable pub leaders_by_broker : Dict Offset ℕ → List Partition → Dict Offset ℕ
leaders_by_broker leaders [] = leaders
leaders_by_broker leaders (p ∷ partitions) =
    leaders_by_broker (Dict.put leaders p.leader (Dict.get_or leaders p.leader 0 + 1)) partitions

pub record TopicHealth : Type 0 where
  pub topic : String
  pub partitions : ℕ
  pub under_replicated : ℕ
  pub leaderless : ℕ
  pub leaders_by_broker : Dict Offset ℕ

unfoldable pub topic_health : String → List Partition → TopicHealth
topic_health name partitions = record {
  topic = name;
  partitions = length partitions;
  under_replicated = length (filter is_short partitions);
  leaderless = length (filter is_leaderless partitions);
  leaders_by_broker = leaders_by_broker [] partitions;
}

-- The topics of the namespace; `in_namespace` tests the prefix of a name.
unfoldable pub pipeline_topics : (String → Bool) → List (String × List Partition) → List TopicHealth
pipeline_topics in_namespace [] = []
pipeline_topics in_namespace ((name, partitions) ∷ topics) =
    let rest = pipeline_topics in_namespace topics in
    if in_namespace name then topic_health name partitions ∷ rest else rest

-- A group whose answer is an exception is reported with it.
pub data GroupReport : Type 0 where
  lags : GroupLag → GroupReport
  unread : String → String → GroupReport

unfoldable pub group_reports :
    (String → Option GroupAnswer)
    → (String → Dict ℕ ℕ)
    → Dict String ℕ
    → List (String × String)
    → List GroupReport
group_reports ask ends counts [] = []
group_reports ask ends counts ((group, topic) ∷ groups) =
    let rest = group_reports ask ends counts groups in
    let count = Dict.get_or counts topic 0 in
    if count == 0 then rest else elim (ask group) [
      | none ↦ unread group topic ∷ rest
      | some answer ↦ lags (group_lag group topic count (ends topic) answer) ∷ rest
    ]

pub record Pipeline : Type 0 where
  pub up : List ℕ
  pub expected : ℕ
  pub controller : Option ℕ
  pub total : ℕ
  pub under_replicated : ℕ
  pub leaderless : ℕ
  pub topics : List TopicHealth
  pub groups : List GroupReport
  pub dlq_records : Option ℕ

abbrev pub expected_brokers : ℕ
expected_brokers = 3

abbrev pub dlq_count_limit : ℕ
dlq_count_limit = 100000

unfoldable pub sum_of : (TopicHealth → ℕ) → List TopicHealth → ℕ
sum_of count [] = 0
sum_of count (t ∷ topics) = count t + sum_of count topics

-- What the cluster answers: the ids of its brokers in order, the controller, the partitions of every
-- topic by name in order, each group, the ends of each topic, and the polls that count the DLQ.
pub record ClusterAnswer : Type 0 where
  pub brokers : List ℕ
  pub controller : Option ℕ
  pub metadata : List (String × List Partition)
  pub ask : String → Option GroupAnswer
  pub ends : String → Dict ℕ ℕ
  pub dlq_polls : List Counted

unfoldable pub pipeline :
    (in_namespace : String → Bool)
    → (dlq : String) → List (String × String)
    → ClusterAnswer
    → Pipeline
pipeline in_namespace dlq groups answer =
    let topics = pipeline_topics in_namespace answer.metadata in
    let counts = map (λ t. (t.topic, t.partitions)) topics in
    record {
      up = answer.brokers;
      expected = expected_brokers;
      controller = answer.controller;
      total = sum_of (λ t. t.partitions) topics;
      under_replicated = sum_of (λ t. t.under_replicated) topics;
      leaderless = sum_of (λ t. t.leaderless) topics;
      topics = topics;
      groups = group_reports answer.ask answer.ends counts groups;
      dlq_records = elim (Dict.get counts dlq) [
        | none ↦ none
        | some partitions ↦ some (count_records partitions dlq_count_limit [] 0 answer.dlq_polls)
      ];
    }
