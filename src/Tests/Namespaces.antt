-- ===== src/Tests/Namespaces.antt =====
-- common/sandbox.py, common/config.py and common/metrics.py on small inputs.
use wikistream_kafka.Prelude.{
  ℕ, ◌≡◌, ◌≢◌, refl, ap, String, Bool, true, none, some, List, [], ◌∷◌, contains, filter, string_eq,
  nat_eq, arith,
}
use wikistream_kafka.Dict
use wikistream_kafka.Config.{topic_name, scoped, update, consumer_config, text}
use wikistream_kafka.Sandbox.{
  KafkaState, starts_with, delete_names, delete_kafka_state, sandbox, start, stop, kill, crashed,
  wait_until,
}
use wikistream_kafka.Sandbox.Apart.{no_dot, codes, namespaces_apart}
use wikistream_kafka.Metrics.{
  rate_meter, report, mark, lag_of, partition_lag, sum, unavailable, log_lag,
}
use wikistream_kafka.Web.App.{Response, overview_key, overview, status, health}
use wikistream_kafka.Web.Queries.{clamp_minutes}

program : Unit {0}
unfolding contains filter Dict.get Dict.put topic_name scoped update consumer_config starts_with
    delete_names delete_kafka_state sandbox start stop kill crashed wait_until no_dot codes report
    mark lag_of partition_lag sum unavailable log_lag overview health clamp_minutes
program = tt

abbrev state : KafkaState
state = record {
  topics = "itest1.raw" ∷ "wiki.raw" ∷ [];
  groups = "itest1.cleaner" ∷ "cleaner" ∷ [];
}

abbrev deletes : String → Bool
deletes name = true

cleaned :
    delete_kafka_state deletes "itest1" state
    ≡ record { topics = "wiki.raw" ∷ []; groups = "cleaner" ∷ [] }
unfolding program
cleaned = refl

abbrev first : List ℕ → ℕ
first [] = 0
first (n ∷ ns) = n

apart : codes "itest1" ≢ codes "wiki"
unfolding program
apart e = let bad : ◌≡◌ {A = ℕ} 105 119 = ap first e in absurd (omega arith)

namespaces_apart_example :
    let after = delete_kafka_state deletes "itest1" state in
    (contains after.topics (topic_name "wiki" "raw")
      ≡ contains state.topics (topic_name "wiki" "raw"))
    × (contains after.groups (scoped "wiki" "raw") ≡ contains state.groups (scoped "wiki" "raw"))
unfolding program
namespaces_apart_example = namespaces_apart deletes "itest1" "wiki" "raw" state refl refl refl apart

-- An override replaces a setting.
overrides :
    Dict.get (consumer_config "host" "range" "g" (("group.id", text "h") ∷ [])) "group.id"
    ≡ some (text "h")
unfolding program
overrides = refl

-- The log line counts what came since the last one.
reports_window : (mark (rate_meter 10000 0) 5 9000).1 ≡ none
unfolding program
reports_window = refl

lags :
    log_lag ((0, some (record { position = some 7; committed = none; high = 9 })) ∷ (1, none) ∷ [])
    ≡ (2, 1 ∷ [])
unfolding program
lags = refl

clamps : overview 2 ≡ Response.ok (overview_key 5)
unfolding program
clamps = refl

refuses : overview 0 ≡ status 422
unfolding program
refuses = refl
