-- ===== src/Windows/Runs.antt =====
-- processors/windows.py: whole runs of `MinuteWindows`, over all its partitions.
use wikistream_kafka.Prelude.{
  ℕ, ◌≡◌, inl, inr, ◌↔◌, String, Bool, none, some, List, [], ◌∷◌, arith, nat_eq, ◌==◌,
  if◌then◌else◌, Bool-cases, Option-cases, All, contains,
}
use wikistream_kafka.Dict
use wikistream_kafka.Dict.{
  Dict, Distinct, get-put, get-remove, put-Distinct, remove-Distinct, All-get, All-of_get,
}
use wikistream_kafka.Windows.{
  ClosedWindow, PartitionState, new_state, MinuteWindows, minute_windows, state, add_to, add,
}
use wikistream_kafka.Windows.Counting.{Log, Tracks, Tracks-new}
use wikistream_kafka.Windows.Close.{pop_state, pop_partitions, pop_closed, revoke}
use wikistream_kafka.Windows.Exact.{logged, add_to-Tracks, IsExact, pop_state-Tracks}

-- The accepted edits of each partition since it was last taken over.
abbrev pub Logs : Type 0
Logs = ℕ → Log

unfoldable pub log_edit : MinuteWindows → Logs → ℕ → ℕ → String → String → ℕ → Logs
log_edit m logs partition offset wiki title event_time_ms p =
    if partition == p
    then logged m.lateness_ms m.max_windows (state m partition) offset wiki title event_time_ms
        (logs partition)
    else logs p

unfoldable pub log_revoke : Logs → List ℕ → Logs
log_revoke logs ps p = if contains ps p then [] else logs p

-- Over all partitions: `Tracks` where there is a state, and no edit logged where there is none.
pub record TracksAll (lateness_ms : ℕ) (partitions : Dict ℕ PartitionState) (logs : Logs)
    : Type 0 where
  pub distinct : Distinct partitions
  pub held :
      (p : ℕ) (s : PartitionState) → Dict.get partitions p ≡ some s → Tracks lateness_ms s (logs p)
  pub dropped : (p : ℕ) → Dict.get partitions p ≡ none → logs p ≡ []

-- What can happen to a `MinuteWindows`, in any order.
pub data Reach (lateness_ms max_windows : ℕ) : MinuteWindows → Logs → Type 0 where
  start : Reach lateness_ms max_windows (minute_windows lateness_ms max_windows) (λ p. [])
  edit :
      {m : MinuteWindows} {logs : Logs}
      → Reach lateness_ms max_windows m logs
      → (partition offset : ℕ) (wiki title : String) (event_time_ms : ℕ)
      → Reach lateness_ms max_windows
          (add m partition offset wiki title event_time_ms).0
          (log_edit m logs partition offset wiki title event_time_ms)
  pop :
      {m : MinuteWindows} {logs : Logs}
      → Reach lateness_ms max_windows m logs
      → (final : Bool) → Reach lateness_ms max_windows (pop_closed m final).0 logs
  rebalance :
      {m : MinuteWindows} {logs : Logs}
      → Reach lateness_ms max_windows m logs
      → (ps : List ℕ) → Reach lateness_ms max_windows (revoke m ps) (log_revoke logs ps)

state-Tracks :
    (lateness_ms : ℕ) (partitions : Dict ℕ PartitionState) (logs : Logs) (p : ℕ)
    → TracksAll lateness_ms partitions logs
    → Tracks lateness_ms (Dict.get_or partitions p new_state) (logs p)
unfolding Dict.get_or
state-Tracks lateness_ms partitions logs p h = elim (Option-cases (Dict.get partitions p)) [
  | inl q ↦ rw (q, Dict.get_or, h.dropped p q) (Tracks-new lateness_ms)
  | inr q ↦ rw (q.1, Dict.get_or) (h.held p q.0 q.1)
]

module _ (m : MinuteWindows) (partition offset : ℕ) (wiki title : String) (event_time_ms : ℕ) where
  abbrev pub after : PartitionState
  after = (add_to m.lateness_ms m.max_windows (state m partition) offset wiki title event_time_ms).0

  pub partitions-add :
      (add m partition offset wiki title event_time_ms).0.partitions
      ≡ Dict.put m.partitions partition after
  unfolding add
  partitions-add = ground arith

  pub limits-add :
      ((add m partition offset wiki title event_time_ms).0.lateness_ms ≡ m.lateness_ms)
      × ((add m partition offset wiki title event_time_ms).0.max_windows ≡ m.max_windows)
  unfolding add
  limits-add = ground arith

  pub put-TracksAll :
      (logs : Logs)
      → TracksAll m.lateness_ms m.partitions logs
      → TracksAll m.lateness_ms
          (Dict.put m.partitions partition after)
          (log_edit m logs partition offset wiki title event_time_ms)
  unfolding log_edit
  put-TracksAll logs h = record {
    distinct = put-Distinct m.partitions partition after h.distinct;
    held = λ p s g. elim (Bool-cases (partition == p)) [
      | inl q ↦
          let found : s ≡ after = ground (arith, get-put m.partitions partition p after) in
          rw (q, found)
            (add_to-Tracks m.lateness_ms m.max_windows (state m partition) offset wiki title
              event_time_ms (logs partition)
              (state-Tracks m.lateness_ms m.partitions logs partition h))
      | inr q ↦
          let found : Dict.get m.partitions p ≡ some s =
            ground (arith, get-put m.partitions partition p after) in
          rw q (h.held p s found)
    ];
    dropped = λ p g. elim (Bool-cases (partition == p)) [
      | inl q ↦ absurd (ground (arith, get-put m.partitions partition p after))
      | inr q ↦ rw q (h.dropped p (ground (arith, get-put m.partitions partition p after)))
    ];
  }

get-pop_partitions :
    (lateness_ms : ℕ) (final : Bool) (d : Dict ℕ PartitionState) (closed : List ClosedWindow)
    (p : ℕ)
    → (Dict.get (pop_partitions lateness_ms final d closed).0 p ≡ none) ↔ (Dict.get d p ≡ none)
unfolding pop_partitions Dict.get
get-pop_partitions lateness_ms final [] closed p = (λ h. h, λ h. h)
get-pop_partitions lateness_ms final ((q, s) ∷ d) closed p =
    ground
      (arith, get-pop_partitions lateness_ms final d (pop_state lateness_ms final s closed).1 p)

module _ (lateness_ms : ℕ) (final : Bool) (logs : Logs) where
  -- A row that is exact for one of the partitions.
  abbrev pub IsExactSomewhere : ClosedWindow → Type 0
  IsExactSomewhere c = (p : ℕ) × IsExact (logs p) c

  pop_partitions-Tracks :
      (d : Dict ℕ PartitionState) (closed : List ClosedWindow)
      → All (λ e. Tracks lateness_ms e.1 (logs e.0)) d
      → All IsExactSomewhere closed
      → Distinct d
      → All (λ e. Tracks lateness_ms e.1 (logs e.0)) (pop_partitions lateness_ms final d closed).0
        × All IsExactSomewhere (pop_partitions lateness_ms final d closed).1
        × Distinct (pop_partitions lateness_ms final d closed).0
  unfolding pop_partitions
  pop_partitions-Tracks [] closed h x u = (tt, x, tt)
  pop_partitions-Tracks ((p, s) ∷ d) closed h x u =
      let (t, x') =
        pop_state-Tracks lateness_ms final (logs p) IsExactSomewhere (λ c e. (p, e)) s closed h.0
          x in
      let (ts, xs, us) =
        pop_partitions-Tracks d (pop_state lateness_ms final s closed).1 h.1 x' u.1 in
      (
        (t, ts),
        xs,
        (
          (get-pop_partitions lateness_ms final d (pop_state lateness_ms final s closed).1 p).1 u.0,
          us,
        ),
      )

  pub pop_partitions-TracksAll :
      (d : Dict ℕ PartitionState)
      → TracksAll lateness_ms d logs
      → TracksAll lateness_ms (pop_partitions lateness_ms final d []).0 logs
        × All IsExactSomewhere (pop_partitions lateness_ms final d []).1
  pop_partitions-TracksAll d h =
      let every = All-of_get (λ e. Tracks lateness_ms e.1 (logs e.0)) d h.distinct h.held in
      let (ts, xs, us) = pop_partitions-Tracks d [] every tt h.distinct in
      (
        record {
          distinct = us;
          held = λ p s g. All-get (λ e. Tracks lateness_ms e.1 (logs e.0)) _ p s ts g;
          dropped = λ p g. h.dropped p ((get-pop_partitions lateness_ms final d [] p).0 g);
        },
        xs,
      )
