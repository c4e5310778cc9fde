-- ===== src/Windows/Partial.antt =====
-- processors/windows.py: the offset that is committed after a final flush has written windows whose
-- minute was not over.
use wikistream_kafka.Prelude.{
  ℕ, ◌≡◌, refl, inl, inr, true, false, none, some, List, [], ◌∷◌, ◌==◌, arith, nat_eq, Bool-cases,
  Option-cases, In, contains, leb, contains-filter, subst, sym, Bool,
}
use wikistream_kafka.Dict
use wikistream_kafka.Dict.{Dict, Distinct, keys, get-remove, contains-keys, All-get}
use wikistream_kafka.Offset.{
  Offset, AtMost, AtMost-refl, AtMost-trans, earlier, earlier-AtMost, unset,
}
use wikistream_kafka.Windows.{
  WindowKey, key_eq, Window, ClosedWindow, PartitionState, MinuteWindows, closed_before,
}
use wikistream_kafka.Windows.Close.{
  lower_floor, pop_window, pop_all, done, pop_state, pop_partitions, pop_closed, commit_offset,
  commit_offsets,
}
use wikistream_kafka.Windows.Commit.{lowest-AtMost, get-commit_offsets_of, commit_offset-IsSafe}
use wikistream_kafka.Windows.Numbered.{Numbered, pop_window-Numbered, Reach-Numbered}
use wikistream_kafka.Windows.Runs.{Logs, Reach}
use wikistream_kafka.Windows.Runs as Runs
use wikistream_kafka.Windows.Reached.{Reach-Invariant}

-- The floor is set, at or before an offset.
abbrev IsFloored : Offset → Offset → Type 0
IsFloored floor o = (unset floor ≡ false) × AtMost floor o

earlier-set : (a b : Offset) → unset a ≡ false → unset b ≡ false → unset (earlier a b) ≡ false
earlier-set none b h k = absurd (ground arith)
earlier-set (some m) none h k = absurd (ground arith)
earlier-set (some m) (some n) h k = ground arith

-- A lower floor is set and lies at or before the offset that lowered it, and before what it was.
lower_floor-new :
    (floor first : Offset) → unset first ≡ false → IsFloored (lower_floor floor first) first
lower_floor-new none first h = (h, AtMost-refl first)
lower_floor-new (some n) first h =
    (earlier-set (some n) first refl h, (earlier-AtMost (some n) first).1)

lower_floor-old :
    (floor first o : Offset)
    → unset first ≡ false
    → IsFloored floor o
    → IsFloored (lower_floor floor first) o
lower_floor-old none first o h k = absurd (ground arith)
lower_floor-old (some n) first o h k = (
  earlier-set (some n) first refl h,
  AtMost-trans (earlier (some n) first) (some n) o (earlier-AtMost (some n) first).0 k.1,
)

module _ (cutoff : ℕ) where
  pop_window-keeps :
      (j : WindowKey) (s : PartitionState) (closed : List ClosedWindow) (o : Offset)
      → Numbered s
      → IsFloored s.partial_floor o
      → IsFloored (pop_window true cutoff j (s, closed)).0.partial_floor o
  unfolding pop_window
  pop_window-keeps j s closed o numbered h = elim (Option-cases (Dict.get s.windows j)) [
    | inl q ↦ rw (q, pop_window) h
    | inr (w, q) ↦ elim (Bool-cases (leb cutoff j.minute)) [
      | inl early ↦
          rw (q, pop_window, early)
            (lower_floor-old s.partial_floor w.first_offset o
              (All-get (λ e. unset e.1.first_offset ≡ false) s.windows j w numbered q) h)
      | inr over ↦ rw (q, pop_window, over) h
    ]
  ]

  pop_all-keeps :
      (ks : List WindowKey) (s : PartitionState) (closed : List ClosedWindow) (o : Offset)
      → Numbered s
      → IsFloored s.partial_floor o
      → IsFloored (pop_all true cutoff ks (s, closed)).0.partial_floor o
  unfolding pop_all
  pop_all-keeps [] s closed o numbered h = h
  pop_all-keeps (k ∷ ks) s closed o numbered h =
      let (s', closed') = pop_window true cutoff k (s, closed) in
      pop_all-keeps ks s' closed' o (pop_window-Numbered true cutoff k s closed numbered)
        (pop_window-keeps k s closed o numbered h)

  -- A window whose minute is not over sets the floor when it is popped.
  pop_window-floors :
      (k : WindowKey) (w : Window) (s : PartitionState) (closed : List ClosedWindow)
      → Numbered s
      → Dict.get s.windows k ≡ some w
      → leb cutoff k.minute ≡ true
      → IsFloored (pop_window true cutoff k (s, closed)).0.partial_floor w.first_offset
  unfolding pop_window
  pop_window-floors k w s closed numbered q early =
      rw (q, pop_window, early)
        (lower_floor-new s.partial_floor w.first_offset
          (All-get (λ e. unset e.1.first_offset ≡ false) s.windows k w numbered q))

  stays_open :
      (j k : WindowKey) (w : Window) (s : PartitionState) (closed : List ClosedWindow)
      → (j == k) ≡ false
      → Dict.get s.windows k ≡ some w
      → Dict.get (pop_window true cutoff j (s, closed)).0.windows k ≡ some w
  unfolding pop_window
  stays_open j k w s closed other q = elim (Option-cases (Dict.get s.windows j)) [
    | inl n ↦ rw (n, pop_window) q
    | inr (v, n) ↦ rw (n, pop_window, get-remove s.windows j k, other) q
  ]

  pop_all-floors :
      (ks : List WindowKey) (k : WindowKey) (w : Window) (s : PartitionState)
      (closed : List ClosedWindow)
      → contains ks k ≡ true
      → Numbered s
      → Dict.get s.windows k ≡ some w
      → leb cutoff k.minute ≡ true
      → IsFloored (pop_all true cutoff ks (s, closed)).0.partial_floor w.first_offset
  unfolding pop_all contains
  pop_all-floors [] k w s closed i numbered q early = absurd (ground arith)
  pop_all-floors (j ∷ ks) k w s closed i numbered q early =
      let (s', closed') = pop_window true cutoff j (s, closed) in
      let numbered' = pop_window-Numbered true cutoff j s closed numbered in
      elim (Bool-cases (j == k)) [
        | inl same ↦ pop_all-keeps ks s' closed' w.first_offset numbered' (
            subst
              (λ (x : WindowKey).
                IsFloored (pop_window true cutoff x (s, closed)).0.partial_floor w.first_offset)
              (sym ((key_eq.same_iff j k).0 same))
              (pop_window-floors k w s closed numbered q early))
        | inr other ↦
            pop_all-floors ks k w s' closed' (ground arith) numbered'
              (stays_open j k w s closed other q) early
      ]

-- A final flush leaves the floor at or before the offsets of each window whose minute was not over.
pop_state-floors :
    (lateness_ms : ℕ) (k : WindowKey) (w : Window) (s : PartitionState) (closed : List ClosedWindow)
    → Numbered s
    → Dict.get s.windows k ≡ some w
    → leb (closed_before lateness_ms s) k.minute ≡ true
    → IsFloored (pop_state lateness_ms true s closed).0.partial_floor w.first_offset
unfolding pop_state done
pop_state-floors lateness_ms k w s closed numbered q early =
    let cutoff = closed_before lateness_ms s in
    let listed : contains (done true cutoff s) k ≡ true = ground (
      arith,
      contains-filter (λ (j : WindowKey). true) (keys s.windows) k,
      contains-keys s.windows k,
    ) in
    pop_all-floors cutoff (done true cutoff s) k w s closed listed numbered q early

popped_at :
    (lateness_ms : ℕ) (final : Bool) (d : Dict ℕ PartitionState) (closed : List ClosedWindow)
    (p : ℕ) (s : PartitionState)
    → Dict.get d p ≡ some s
    → (before : List ClosedWindow) × (Dict.get (pop_partitions lateness_ms final d closed).0 p
        ≡ some (pop_state lateness_ms final s before).0)
unfolding pop_partitions Dict.get
popped_at lateness_ms final [] closed p s g = absurd (ground arith)
popped_at lateness_ms final ((q, t) ∷ d) closed p s g = elim (Bool-cases (q == p)) [
  | inl same ↦ let here : t ≡ s = ground arith in (closed, rw (same, here) refl)
  | inr other ↦
      let (before, e) =
        popped_at lateness_ms final d (pop_state lateness_ms final t closed).1 p s (ground arith) in
      (before, rw other e)
]

committed_offset :
    (m : MinuteWindows) (p : ℕ) (s : PartitionState) (offset : Offset)
    → Distinct m.partitions
    → Dict.get m.partitions p ≡ some s
    → Dict.get (commit_offsets m) p ≡ some offset
    → commit_offset s ≡ some offset
unfolding commit_offsets Dict.get
committed_offset m p s offset u g h =
    let at = get-commit_offsets_of m.partitions [] p u in ground (arith, at, g, h)

-- A final flush writes every open window, those whose minute is not over as partial totals. The
-- offset that is committed for the partition after it lies at or before every edit that such a
-- window counts, whatever edits, pops and rebalances came before; so the next owner reads all of
-- them again.
pub partial_totals_safe :
    {lateness_ms max_windows : ℕ} {m : MinuteWindows} {logs : Logs}
    → Reach lateness_ms max_windows m logs
    → (p : ℕ) (s : PartitionState) → Dict.get m.partitions p ≡ some s
    → (k : WindowKey) (w : Window) → Dict.get s.windows k ≡ some w
    → leb (closed_before m.lateness_ms s) k.minute ≡ true
    → (o : ℕ) → In (k, o) (logs p)
    → (offset : Offset) → Dict.get (commit_offsets (pop_closed m true).0) p ≡ some offset
    → AtMost offset (some o)
unfolding commit_offsets pop_closed
partial_totals_safe {m} {logs} r p s g k w q early o i offset h =
    let after = (pop_closed m true).0 in
    let (before, popped) = popped_at m.lateness_ms true m.partitions [] p s g in
    let s' = (pop_state m.lateness_ms true s before).0 in
    let found =
      committed_offset after p s' offset (Reach-Invariant (Runs.pop r true)).tracks.distinct popped
        h in
    let (set, low) =
      pop_state-floors m.lateness_ms k w s before
        (All-get (λ e. Numbered e.1) m.partitions p s (Reach-Numbered r) g) q early in
    let first = (((Reach-Invariant r).tracks.held p s g).opened k w q).1 in
    AtMost-trans offset w.first_offset (some o)
      (AtMost-trans offset s'.partial_floor w.first_offset
        ((commit_offset-IsSafe s' offset found).floor set) low)
      (rw first (lowest-AtMost k o (logs p) i))
