-- ===== src/Watchdog/Strikes.antt =====
-- common/topics.py: when the watchdog makes the group rejoin.
use wikistream_kafka.Prelude.{
  ℕ, ◌-◌, ◌≤◌, ◌<◌, ◌≡◌, refl, true, Option, none, some, List, [], ◌∷◌, nat_eq, arith, ltb,
  if◌then◌else◌, Bool-cases, inl, inr,
}
use wikistream_kafka.Watchdog.{Watchdog, watchdog, Group, unowned_partitions, judge, check}

-- Checks one after another, each at a time and with what the admin client says.
unfoldable pub run : Watchdog → List (ℕ × Option Group) → Watchdog
run w [] = w
run w ((now, group) ∷ rest) = run (check w now group).0 rest

-- The last answer that a check of `run` judged: a check before its interval is up looks at nothing,
-- and an exception is no answer.
unfoldable pub last_answer : Watchdog → List (ℕ × Option Group) → Option Group → Option Group
last_answer w [] last = last
last_answer w ((now, group) ∷ rest) last = last_answer (check w now group).0 rest (
    if ltb (now - w.last_check) w.interval_ms
    then last
    else elim group [ none ↦ last | some g ↦ some g ])

-- A stable group with a partition that no member holds.
abbrev pub IsShort : Group → Type 0
IsShort g = (g.stable ≡ true) × (g.owned < g.total)

-- A strike says that the last answer was of such a group.
abbrev Struck : Watchdog → Option Group → Type 0
Struck w last = (w.strikes < 2) × (w.strikes ≡ 1 → (g : Group) × (last ≡ some g) × IsShort g)

check-Struck :
    (w : Watchdog) (now : ℕ) (group last : Option Group)
    → Struck w last
    → Struck (check w now group).0 (
        if ltb (now - w.last_check) w.interval_ms
        then last
        else elim group [ none ↦ last | some g ↦ some g ])
unfolding check judge unowned_partitions
check-Struck w now none last h = elim (Bool-cases (ltb (now - w.last_check) w.interval_ms)) [
  | inl q ↦ rw q h
  | inr q ↦ rw q h
]
check-Struck w now (some g) last h = elim (Bool-cases (ltb (now - w.last_check) w.interval_ms)) [
  | inl q ↦ rw q h
  | inr q ↦ (ground arith, λ one. (g, rw q refl, (ground arith, ground arith)))
]

run-Struck :
    (w : Watchdog) (checks : List (ℕ × Option Group)) (last : Option Group)
    → Struck w last
    → Struck (run w checks) (last_answer w checks last)
unfolding run last_answer
run-Struck w [] last h = h
run-Struck w ((now, group) ∷ rest) last h =
    run-Struck (check w now group).0 rest _ (check-Struck w now group last h)

-- A check that makes the group rejoin with fewer than two strikes before it.
at_check :
    (w : Watchdog) (now : ℕ) (group : Option Group)
    → w.strikes < 2
    → (check w now group).1 ≡ true
    → (g : Group) × (group ≡ some g)
      × IsShort g
      × (w.strikes ≡ 1)
      × ((check w now group).0.strikes ≡ 0)
      × (w.interval_ms ≤ now - w.last_check)
unfolding check judge unowned_partitions
at_check w now none below h = absurd (ground arith)
at_check w now (some g) below h =
    (g, refl, (ground arith, ground arith), ground arith, ground arith, ground arith)

-- A check that makes the group rejoin, after any checks, is made a whole interval after the last
-- one that looked, and finds a stable group with a partition that no member holds; and the answer
-- that was judged before it, with nothing but exceptions and checks that came too early in between,
-- was of such a group too. Afterwards there is no strike.
pub rejoin_justified :
    (interval_ms start : ℕ) (checks : List (ℕ × Option Group)) (now : ℕ) (group : Option Group)
    → (check (run (watchdog interval_ms start) checks) now group).1 ≡ true
    → ((g : Group) × (group ≡ some g) × IsShort g)
      × ((g : Group) × (last_answer (watchdog interval_ms start) checks none ≡ some g) × IsShort g)
      × ((check (run (watchdog interval_ms start) checks) now group).0.strikes ≡ 0)
      × ((run (watchdog interval_ms start) checks).interval_ms
          ≤ now - (run (watchdog interval_ms start) checks).last_check)
rejoin_justified interval_ms start checks now group h =
    let (below, struck) =
      run-Struck (watchdog interval_ms start) checks none
        ((omega arith), λ one. absurd (omega arith)) in
    let (g, e, short, one, cleared, due) =
      at_check (run (watchdog interval_ms start) checks) now group below h in
    ((g, e, short), struck one, cleared, due)
