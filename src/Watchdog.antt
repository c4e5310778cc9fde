-- ===== src/Watchdog.antt =====
-- common/topics.py: the assignment watchdog.
pub mod Strikes
use wikistream_kafka.Prelude.{
  ℕ, ◌+◌, ◌-◌, Bool, true, false, Option, none, some, List, [], ◌∷◌, ltb, ◌==◌, nat_eq,
  if◌then◌else◌,
}

abbrev pub watchdog_interval_ms : ℕ
watchdog_interval_ms = 15000

abbrev pub strikes_before_rejoin : ℕ
strikes_before_rejoin = 2

pub record Watchdog : Type 0 where
  pub interval_ms : ℕ
  pub strikes : ℕ
  pub rejoins : ℕ
  pub last_check : ℕ

abbrev pub watchdog : ℕ → ℕ → Watchdog
watchdog interval_ms now = record {
  interval_ms = interval_ms;
  strikes = 0;
  rejoins = 0;
  last_check = now;
}

-- What the admin client says of the group: whether it is stable, how many partitions its members
-- hold, and how many the topics have.
pub record Group : Type 0 where
  pub stable : Bool
  pub owned : ℕ
  pub total : ℕ

-- `max(total - len(owned), 0)`, and 0 for a group that is not stable
unfoldable pub unowned_partitions : Group → ℕ
unowned_partitions g = if g.stable then g.total - g.owned else 0

-- The rest of `check` once the interval is up: `none` for the group is an exception, which is
-- logged. The Boolean tells whether `rejoin` was called.
unfoldable pub judge : Watchdog → Option Group → Watchdog × Bool
judge w none = (w, false)
judge w (some g) =
    let struck : Watchdog = record w { strikes = w.strikes + 1 } in
    if unowned_partitions g == 0
    then (record w { strikes = 0 }, false)
    else if ltb struck.strikes strikes_before_rejoin
    then (struck, false)
    else (record w { strikes = 0; rejoins = w.rejoins + 1 }, true)

unfoldable pub check : Watchdog → ℕ → Option Group → Watchdog × Bool
check w now group =
    let judged = judge (record w { last_check = now }) group in
    if ltb (now - w.last_check) w.interval_ms then (w, false) else judged
