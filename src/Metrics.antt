-- ===== src/Metrics.antt =====
-- common/metrics.py: the rate meter and the lag of a consumer.
--
-- Times are milliseconds of the monotonic clock.
use wikistream_kafka.Prelude.{
  ℕ, ◌+◌, ◌-◌, Bool, false, not, ◌&&◌, Option, none, some, List, [], ◌∷◌, ltb, ◌==◌, contains,
  if◌then◌else◌, nat_eq,
}
use wikistream_kafka.Dict
use wikistream_kafka.Dict.{Dict, keys}

pub record RateMeter : Type 0 where
  pub interval : ℕ
  pub total : ℕ
  pub errors : ℕ
  pub window_count : ℕ
  pub started : ℕ
  pub last_report : ℕ

abbrev pub rate_meter : ℕ → ℕ → RateMeter
rate_meter interval now = record {
  interval = interval;
  total = 0;
  errors = 0;
  window_count = 0;
  started = now;
  last_report = now;
}

-- The numbers of a log line: the events and the milliseconds of the window, and of the whole run,
-- whose quotients are the two rates; and the errors.
pub record Line : Type 0 where
  pub window : ℕ × ℕ
  pub overall : ℕ × ℕ
  pub errors : ℕ

unfoldable pub report : RateMeter → Bool → ℕ → RateMeter × Option Line
report m force now =
    let elapsed = now - m.last_report in
    if (not force && ltb elapsed m.interval)
    then (m, none)
    else if elapsed == 0
    then (m, none)
    else (
      record m { window_count = 0; last_report = now },
      some (record {
        window = (m.window_count, elapsed);
        overall = (m.total, now - m.started);
        errors = m.errors;
      }),
    )

unfoldable pub mark : RateMeter → ℕ → ℕ → RateMeter × Option Line
mark m count now =
    report (record m { total = m.total + count; window_count = m.window_count + count }) false now

unfoldable pub mark_error : RateMeter → ℕ → RateMeter
mark_error m count = record m { errors = m.errors + count }

-- What the consumer answers for a partition: its position and its committed offset, if there are
-- any, and the end of the log.
pub record Answer : Type 0 where
  pub position : Option ℕ
  pub committed : Option ℕ
  pub high : ℕ

-- A partition with no position and no committed offset has no lag.
unfoldable pub lag_of : Answer → ℕ
lag_of a = elim a.position [
  | some p ↦ a.high - p
  | none ↦ elim a.committed [ some c ↦ a.high - c | none ↦ 0 ]
]

-- A partition for which the client raises is left out.
unfoldable pub partition_lag : List (ℕ × Option Answer) → Dict ℕ ℕ
partition_lag [] = []
partition_lag ((p, none) ∷ partitions) = partition_lag partitions
partition_lag ((p, some a) ∷ partitions) = Dict.put (partition_lag partitions) p (lag_of a)

unfoldable pub sum : Dict ℕ ℕ → ℕ
sum [] = 0
sum ((p, lag) ∷ rest) = lag + sum rest

-- the partitions that the log line calls unavailable
unfoldable pub unavailable : Dict ℕ ℕ → List (ℕ × Option Answer) → List ℕ
unavailable lag [] = []
unavailable lag ((p, a) ∷ partitions) =
    let rest = unavailable lag partitions in if contains (keys lag) p then rest else p ∷ rest

-- The total, and the partitions that could not be read.
unfoldable pub log_lag : List (ℕ × Option Answer) → ℕ × List ℕ
log_lag partitions = let lag = partition_lag partitions in (sum lag, unavailable lag partitions)
