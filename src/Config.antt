-- ===== src/Config.antt =====
-- common/config.py: names, topics and the settings of Kafka clients.
use wikistream_kafka.Prelude.{
  ℕ, ◌*◌, String, Bool, true, false, List, [], ◌∷◌, string_eq, ◌==◌, if◌then◌else◌, append_text,
}
use wikistream_kafka.Dict
use wikistream_kafka.Dict.{Dict}

-- a value of a client's setting
pub data Setting : Type 0 where
  text : String → Setting
  number : ℕ → Setting
  flag : Bool → Setting

abbrev pub Settings : Type 0
Settings = Dict String Setting

abbrev pub default_namespace : String
default_namespace = "wiki"

unfoldable pub topic_name : String → String → String
topic_name namespace name = append_text namespace (append_text "." name)

unfoldable pub scoped : String → String → String
scoped namespace name =
    if namespace == default_namespace then name else append_text namespace (append_text "." name)

abbrev pub hour_ms : ℕ
hour_ms = 60 * 60 * 1000

abbrev pub day_ms : ℕ
day_ms = 24 * hour_ms

pub record TopicSpec : Type 0 where
  pub name : String
  pub partitions : ℕ
  pub config : Dict String String

-- `TOPICS`, with `str` of a number
unfoldable pub topics : String → (ℕ → String) → List TopicSpec
topics namespace str =
    record {
      name = topic_name namespace "raw";
      partitions = 6;
      config = ("retention.ms", str day_ms) ∷ [];
    }
    ∷ record {
      name = topic_name namespace "clean";
      partitions = 6;
      config = ("retention.ms", str (7 * day_ms)) ∷ [];
    }
    ∷ record {
      name = topic_name namespace "alerts";
      partitions = 3;
      config = ("retention.ms", str (30 * day_ms)) ∷ [];
    }
    ∷ record {
      name = topic_name namespace "page-latest";
      partitions = 6;
      config =
          ("cleanup.policy", "compact")
          ∷ ("min.cleanable.dirty.ratio", "0.1")
          ∷ ("segment.ms", str hour_ms)
          ∷ [];
    }
    ∷ record {
      name = topic_name namespace "dlq";
      partitions = 1;
      config = ("retention.ms", str (30 * day_ms)) ∷ [];
    }
    ∷ []

-- `conf.update(overrides)`
unfoldable pub update : {V : Type 0} → Dict String V → Dict String V → Dict String V
update conf [] = conf
update conf ((k, v) ∷ overrides) = update (Dict.put conf k v) overrides

unfoldable pub producer_config : String → Settings → Settings
producer_config servers overrides =
    update
      (("bootstrap.servers", text servers)
        ∷ ("acks", text "all")
        ∷ ("enable.idempotence", flag true)
        ∷ ("compression.type", text "lz4")
        ∷ ("linger.ms", number 20)
        ∷ ("batch.size", number (64 * 1024))
        ∷ [])
      overrides

-- A call whose overrides name one of the two settings is a TypeError; the callers name neither.
unfoldable pub transactional_producer_config : String → String → Settings → Settings
transactional_producer_config servers transactional_id overrides = producer_config servers (
    ("transactional.id", text transactional_id)
    ∷ ("transaction.timeout.ms", number 60000)
    ∷ overrides)

unfoldable pub consumer_config : String → String → String → Settings → Settings
consumer_config servers assignor group_id overrides =
    update
      (("bootstrap.servers", text servers)
        ∷ ("group.id", text group_id)
        ∷ ("enable.auto.commit", flag false)
        ∷ ("auto.offset.reset", text "earliest")
        ∷ ("isolation.level", text "read_committed")
        ∷ ("partition.assignment.strategy", text assignor)
        ∷ ("heartbeat.interval.ms", number 1000)
        ∷ [])
      overrides

abbrev pub admin_config : String → Settings
admin_config servers = ("bootstrap.servers", text servers) ∷ []

pub record PostgresSettings : Type 0 where
  pub host : String
  pub port : ℕ
  pub dbname : String
  pub user : String
  pub password : String

unfoldable pub dsn : (ℕ → String) → PostgresSettings → String
dsn str s = append_text "host=" (
    append_text s.host (
      append_text " port=" (
        append_text (str s.port) (
          append_text " dbname=" (
            append_text s.dbname
              (append_text " user=" (append_text s.user (append_text " password=" s.password))))))))
