-- ===== src/Tests/Operations.antt =====
-- common/offsets.py and common/topics.py on small inputs.
use wikistream_kafka.Prelude.{
  ℕ, ◌-◌, ◌≤◌, ◌≡◌, refl, true, Option, none, some, List, [], ◌∷◌, nat_eq,
}
use wikistream_kafka.Prelude.Int.{pos, ◌+ℤ◌}
use wikistream_kafka.Retention.{Owned, lost, find_retention_gaps, sum_lost, report_retention_gaps}
use wikistream_kafka.Watchdog.{watchdog, Group, unowned_partitions, judge, check}
use wikistream_kafka.Watchdog.Strikes.{run, last_answer, IsShort, rejoin_justified}

program : Unit {0}
unfolding lost find_retention_gaps sum_lost report_retention_gaps ◌+ℤ◌ unowned_partitions judge
    check run
program = tt

abbrev owned_at : Option ℕ → ℕ → Owned
owned_at committed log_start = record {
  topic = "wiki.clean";
  partition = 0;
  committed = committed;
  log_start = log_start;
}

abbrev partitions : List Owned
partitions = owned_at (some 4) 9 ∷ owned_at none 9 ∷ owned_at (some 9) 9 ∷ []

five_lost : report_retention_gaps partitions ≡ pos 5
unfolding program
five_lost = refl

abbrev stuck : Group
stuck = record { stable = true; owned = 0; total = 3 }

-- The second check looks too early, and the third meets an exception.
abbrev checks : List (ℕ × Option Group)
checks = (15000, some stuck) ∷ (20000, some stuck) ∷ (30000, none) ∷ []

rejoins : (check (run (watchdog 15000 0) checks) 45000 (some stuck)).1 ≡ true
unfolding program
rejoins = refl

rejoin_justified_example :
    ((g : Group) × (some stuck ≡ some g) × IsShort g)
    × ((g : Group) × (last_answer (watchdog 15000 0) checks none ≡ some g) × IsShort g)
    × ((check (run (watchdog 15000 0) checks) 45000 (some stuck)).0.strikes ≡ 0)
    × ((run (watchdog 15000 0) checks).interval_ms
        ≤ 45000 - (run (watchdog 15000 0) checks).last_check)
rejoin_justified_example = rejoin_justified 15000 0 checks 45000 (some stuck) rejoins
