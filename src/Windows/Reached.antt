-- ===== src/Windows/Reached.antt =====
-- processors/windows.py: what holds after any sequence of edits, pops and rebalances.
use wikistream_kafka.Prelude.{
  ℕ, ◌≡◌, refl, sym, inl, inr, Bool, none, List, [], ◌∷◌, arith, nat_eq, if◌then◌else◌, Bool-cases,
  All, subst, contains, ◌∙◌, All-In, In,
}
use wikistream_kafka.Dict
use wikistream_kafka.Dict.{Dict, Distinct, get-remove, remove-Distinct}
use wikistream_kafka.Windows.{ClosedWindow, MinuteWindows}
use wikistream_kafka.Windows.Close.{pop_closed, revoke}
use wikistream_kafka.Windows.Exact.{IsExact}
use wikistream_kafka.Windows.Runs.{
  Logs, log_edit, log_revoke, TracksAll, Reach, start, edit, pop, rebalance, partitions-add, after,
  limits-add, put-TracksAll, IsExactSomewhere, pop_partitions-TracksAll,
}

get-revoke :
    (m : MinuteWindows) (ps : List ℕ) (p : ℕ)
    → Dict.get (revoke m ps).partitions p
      ≡ (if contains ps p then none else Dict.get m.partitions p)
unfolding revoke contains
get-revoke m [] p = refl
get-revoke m (q ∷ ps) p = ground (
  arith,
  get-revoke (record m { partitions = Dict.remove m.partitions q }) ps p,
  get-remove m.partitions q p,
)

revoke-Distinct :
    (m : MinuteWindows) (ps : List ℕ)
    → Distinct m.partitions
    → Distinct (revoke m ps).partitions
      × ((revoke m ps).lateness_ms ≡ m.lateness_ms)
      × ((revoke m ps).max_windows ≡ m.max_windows)
unfolding revoke
revoke-Distinct m [] h = (h, refl, refl)
revoke-Distinct m (q ∷ ps) h =
    revoke-Distinct (record m { partitions = Dict.remove m.partitions q }) ps
      (remove-Distinct m.partitions q h)

revoke-TracksAll :
    (lateness_ms : ℕ) (m : MinuteWindows) (logs : Logs) (ps : List ℕ)
    → TracksAll lateness_ms m.partitions logs
    → TracksAll lateness_ms (revoke m ps).partitions (log_revoke logs ps)
unfolding log_revoke
revoke-TracksAll lateness_ms m logs ps h = record {
  distinct = (revoke-Distinct m ps h.distinct).0;
  held = λ p s g. elim (Bool-cases (contains ps p)) [
    | inl q ↦ absurd (ground (arith, get-revoke m ps p))
    | inr q ↦ rw q (h.held p s (ground (arith, get-revoke m ps p)))
  ];
  dropped = λ p g. elim (Bool-cases (contains ps p)) [
    | inl q ↦ rw q
    | inr q ↦ rw q (h.dropped p (ground (arith, get-revoke m ps p)))
  ];
}

pop_closed-TracksAll :
    (m : MinuteWindows) (final : Bool) (logs : Logs)
    → TracksAll m.lateness_ms m.partitions logs
    → TracksAll m.lateness_ms (pop_closed m final).0.partitions logs
      × All (IsExactSomewhere m.lateness_ms final logs) (pop_closed m final).1
unfolding pop_closed
pop_closed-TracksAll m final logs h =
    pop_partitions-TracksAll m.lateness_ms final logs m.partitions h

pop_closed_limits :
    (m : MinuteWindows) (final : Bool)
    → ((pop_closed m final).0.lateness_ms ≡ m.lateness_ms)
      × ((pop_closed m final).0.max_windows ≡ m.max_windows)
unfolding pop_closed
pop_closed_limits m final = (refl, refl)

pub record Invariant (lateness_ms max_windows : ℕ) (m : MinuteWindows) (logs : Logs) : Type 0 where
  pub lateness : m.lateness_ms ≡ lateness_ms
  pub limit : m.max_windows ≡ max_windows
  pub tracks : TracksAll lateness_ms m.partitions logs

-- After any sequence of edits, pops and rebalances, in every partition each open window counts
-- exactly the edits accepted for it and knows the lowest of their offsets, and a window that is
-- not open has no accepted edit or can never be opened again.
pub Reach-Invariant :
    {lateness_ms max_windows : ℕ} {m : MinuteWindows} {logs : Logs}
    → Reach lateness_ms max_windows m logs
    → Invariant lateness_ms max_windows m logs
unfolding Dict.get
Reach-Invariant {lateness_ms} {max_windows} start = record {
  lateness = refl;
  limit = refl;
  tracks = record { distinct = tt; held = λ p s g. absurd (ground arith); dropped = λ p g. refl };
}
Reach-Invariant {lateness_ms} {max_windows} (edit {m} {logs} r partition offset wiki title time) =
    let h = Reach-Invariant r in
    let (l, x) = limits-add m partition offset wiki title time in
    let t : TracksAll m.lateness_ms m.partitions logs =
      subst (λ (n : ℕ). TracksAll n m.partitions logs) (sym h.lateness) h.tracks in
    record {
      lateness = l ∙ h.lateness;
      limit = x ∙ h.limit;
      tracks = rw (partitions-add m partition offset wiki title time) (
          subst
            (λ (n : ℕ).
              TracksAll n
                (Dict.put m.partitions partition (after m partition offset wiki title time))
                (log_edit m logs partition offset wiki title time))
            h.lateness (put-TracksAll m partition offset wiki title time logs t));
    }
Reach-Invariant {lateness_ms} {max_windows} (pop {m} {logs} r final) =
    let h = Reach-Invariant r in
    let (l, x) = pop_closed_limits m final in
    let t : TracksAll m.lateness_ms m.partitions logs =
      subst (λ (n : ℕ). TracksAll n m.partitions logs) (sym h.lateness) h.tracks in
    record {
      lateness = l ∙ h.lateness;
      limit = x ∙ h.limit;
      tracks =
          subst (λ (n : ℕ). TracksAll n (pop_closed m final).0.partitions logs) h.lateness
            (pop_closed-TracksAll m final logs t).0;
    }
Reach-Invariant {lateness_ms} {max_windows} (rebalance {m} {logs} r ps) =
    let h = Reach-Invariant r in
    let (u, l, x) = revoke-Distinct m ps h.tracks.distinct in
    record {
      lateness = l ∙ h.lateness;
      limit = x ∙ h.limit;
      tracks = revoke-TracksAll lateness_ms m logs ps h.tracks;
    }

-- Whatever was done before, every row that `pop_closed` returns, final or not, holds the number of
-- edits accepted for its page and minute on one of the partitions.
pub pop_closed-IsExact :
    {lateness_ms max_windows : ℕ} {m : MinuteWindows} {logs : Logs}
    → Reach lateness_ms max_windows m logs
    → (final : Bool) (c : ClosedWindow) → In c (pop_closed m final).1
    → (p : ℕ) × IsExact (logs p) c
pop_closed-IsExact {m} {logs} r final c i =
    let h = Reach-Invariant r in
    let t : TracksAll m.lateness_ms m.partitions logs =
      subst (λ (n : ℕ). TracksAll n m.partitions logs) (sym h.lateness) h.tracks in
    All-In (λ x. (p : ℕ) × IsExact (logs p) x) (pop_closed m final).1 c
      (pop_closed-TracksAll m final logs t).1 i
