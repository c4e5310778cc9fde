-- ===== src/Windows/Commit.antt =====
-- processors/windows.py: the offsets that `commit_offsets` lets the consumer move to.
use wikistream_kafka.Prelude.{
  ℕ, ◌≤◌, ◌≡◌, refl, sym, ap, ltb→lt, ltb→ge, inl, inr, false, none, some, [], ◌∷◌, arith, nat_eq,
  Bool-cases, Option-cases, All, All-map, In, nat_beq_iff, subst, ltb,
}
use wikistream_kafka.Dict
use wikistream_kafka.Dict.{Dict, Distinct, get-put, get-put_self, All-get}
use wikistream_kafka.Offset.{
  Offset, AtMost, AtMost-refl, AtMost-trans, earlier, earlier-AtMost, unset, next,
}
use wikistream_kafka.Windows.{
  WindowKey, key_beq, key_eq, lower_first, Window, PartitionState, MinuteWindows,
}
use wikistream_kafka.Windows.Counting.{Log, lowest}
use wikistream_kafka.Windows.Runs.{Logs, Reach}
use wikistream_kafka.Windows.Reached.{Reach-Invariant}
use wikistream_kafka.Windows.Close.{
  lowest_first, needed_from, commit_offset, commit_offsets_of, commit_offsets,
}

lowest_first-AtMost :
    (least : Offset) (d : Dict WindowKey Window)
    → AtMost (lowest_first least d) least
      × All (λ e. AtMost (lowest_first least d) e.1.first_offset) d
unfolding lowest_first
lowest_first-AtMost least [] = (AtMost-refl least, tt)
lowest_first-AtMost least ((k, w) ∷ d) =
    let e = earlier least w.first_offset in
    let (a, b) = earlier-AtMost least w.first_offset in
    let (low, rest) = lowest_first-AtMost e d in
    (
      AtMost-trans (lowest_first e d) e least low a,
      (AtMost-trans (lowest_first e d) e w.first_offset low b, rest),
    )

-- The first offset of a window is at most the edit's, and at most what it was.
pub lower_first-new : (f : Offset) (n : ℕ) → (v : ℕ) × (lower_first f n ≡ some v) × (v ≤ n)
lower_first-new none n = (n, refl, omega arith)
lower_first-new (some m) n = elim (Bool-cases (ltb n m)) [
  | inl q ↦ (n, rw q, omega arith)
  | inr q ↦ (m, rw q, ltb→ge n m q)
]

lower_first-old : (m n : ℕ) → (v : ℕ) × (lower_first (some m) n ≡ some v) × (v ≤ m)
lower_first-old m n = elim (Bool-cases (ltb n m)) [
  | inl q ↦ (n, rw q, let h = ltb→lt n m q in omega arith)
  | inr q ↦ (m, rw q, omega arith)
]

lowest-le :
    (k : WindowKey) (o : ℕ) (log : Log)
    → In (k, o) log
    → (v : ℕ) × (lowest k log ≡ some v) × (v ≤ o)
unfolding lowest
lowest-le k o [] i = absurd i
lowest-le k o ((j, n) ∷ log) (inl i) =
    let same : j ≡ k = ap (λ (x : WindowKey × ℕ). x.0) (sym i) in
    let at : n ≡ o = ap (λ (x : WindowKey × ℕ). x.1) (sym i) in
    let (v, e, le) = lower_first-new (lowest k log) n in
    (v, rw ((key_eq.same_iff j k).1 same) e, omega arith)
lowest-le k o ((j, n) ∷ log) (inr i) =
    let (m, e, le) = lowest-le k o log i in
    elim (Bool-cases (key_beq j k)) [
      | inl q ↦ let (v, e', le') = lower_first-old m n in (v, rw (q, e) e', omega arith)
      | inr q ↦ (m, rw q e, le)
    ]

pub lowest-AtMost :
    (k : WindowKey) (o : ℕ) (log : Log) → In (k, o) log → AtMost (lowest k log) (some o)
lowest-AtMost k o log i = let (v, e, le) = lowest-le k o log i in rw e le

-- What an offset must satisfy to be safe: nothing that an open window or a partial total still
-- needs lies before it.
pub record IsSafe (s : PartitionState) (offset : Offset) : Type 0 where
  pub windows : All (λ e. AtMost offset e.1.first_offset) s.windows
  pub floor : unset s.partial_floor ≡ false → AtMost offset s.partial_floor
  pub idle : s.windows ≡ [] → AtMost offset (next s.last_offset)

empty_rest : {k : WindowKey} {w : Window} {d : Dict WindowKey Window} → (k, w) ∷ d ≡ [] → ⊥
empty_rest h = cc

needed_from-AtMost :
    (s : PartitionState) (d : Dict WindowKey Window) (offset : Offset)
    → s.windows ≡ d
    → needed_from s ≡ some offset
    → All (λ e. AtMost offset e.1.first_offset) d × (d ≡ [] → AtMost offset (next s.last_offset))
unfolding needed_from
needed_from-AtMost s [] offset q h = (
  tt,
  λ z. elim (Bool-cases (unset s.last_offset)) [
    | inl u ↦ absurd (let stuck : needed_from s ≡ none = rw (q, needed_from, u) in cc (stuck, h))
    | inr u ↦
        let found : needed_from s ≡ some (next s.last_offset) = rw (q, needed_from, u) in
        let same : next s.last_offset ≡ offset = ground (arith, found, h) in
        rw (← same) (AtMost-refl (next s.last_offset))
  ],
)
needed_from-AtMost s ((k, w) ∷ d) offset q h =
    let found : needed_from s ≡ some (lowest_first w.first_offset d) = rw (q, needed_from) in
    let same : lowest_first w.first_offset d ≡ offset = ground (arith, found, h) in
    let (a, b) = lowest_first-AtMost w.first_offset d in
    (
      subst (λ (o : Offset). All (λ e. AtMost o e.1.first_offset) ((k, w) ∷ d)) same (a, b),
      λ z. absurd (empty_rest z),
    )

weaken :
    (s : PartitionState) (offset base : Offset)
    → AtMost offset base
    → (unset s.partial_floor ≡ false → AtMost offset s.partial_floor)
    → needed_from s ≡ some base
    → IsSafe s offset
weaken s offset base low floor h =
    let (a, b) = needed_from-AtMost s s.windows base refl h in
    record {
      windows =
          All-map (λ e. AtMost base e.1.first_offset) (λ e. AtMost offset e.1.first_offset)
            s.windows (λ e m. AtMost-trans offset base e.1.first_offset low m) a;
      floor = floor;
      idle = λ z. AtMost-trans offset base (next s.last_offset) low (b z);
    }

pub commit_offset-IsSafe :
    (s : PartitionState) (offset : Offset) → commit_offset s ≡ some offset → IsSafe s offset
unfolding commit_offset
commit_offset-IsSafe s offset h = elim (Option-cases (needed_from s)) [
  | inl q ↦ absurd (ground arith)
  | inr q ↦
      let base = q.0 in
      elim (Bool-cases (unset s.partial_floor)) [
        | inl u ↦
            let same : base ≡ offset = ground (arith, h, q.1, u) in
            weaken s offset base (rw same (AtMost-refl offset)) (λ set. cc (u, set)) (q.1)
        | inr u ↦
            let same : earlier base s.partial_floor ≡ offset = ground (arith, h, q.1, u) in
            let (a, b) = earlier-AtMost base s.partial_floor in
            weaken s offset base (rw (← same) a) (λ set. rw (← same) b) (q.1)
      ]
]

-- The offset that is handed to Kafka for a partition is the one of its state.
pub get-commit_offsets_of :
    (d : Dict ℕ PartitionState) (offsets : Dict ℕ Offset) (p : ℕ)
    → Distinct d
    → Dict.get (commit_offsets_of d offsets) p ≡ elim (Dict.get d p) [
      | none ↦ Dict.get offsets p
      | some s ↦ elim (commit_offset s) [ none ↦ Dict.get offsets p | some o ↦ some o ]
    ]
unfolding commit_offsets_of Dict.get
get-commit_offsets_of [] offsets p u = refl
get-commit_offsets_of ((q, s) ∷ d) offsets p u = elim (Option-cases (commit_offset s)) [
  | inl c ↦ rw c (ground (arith, c, u.0, nat_beq_iff q p, get-commit_offsets_of d offsets p u.1))
  | inr c ↦ rw (c.1) (
      ground (
        arith,
        c.1,
        u.0,
        nat_beq_iff q p,
        get-put offsets q p c.0,
        get-commit_offsets_of d (Dict.put offsets q c.0) p u.1,
      ))
]

-- No edit that an open window counts lies before the offset that is committed for its partition,
-- whatever edits, pops and rebalances came before; so a restart reads all of them again.
pub commit_offsets_safe :
    {lateness_ms max_windows : ℕ} {m : MinuteWindows} {logs : Logs}
    → Reach lateness_ms max_windows m logs
    → (p : ℕ) (offset : Offset) → Dict.get (commit_offsets m) p ≡ some offset
    → (s : PartitionState) × (Dict.get m.partitions p ≡ some s)
      × ((k : WindowKey) (w : Window) (o : ℕ)
          → Dict.get s.windows k ≡ some w
          → In (k, o) (logs p)
          → AtMost offset (some o))
unfolding commit_offsets Dict.get
commit_offsets_safe {m} {logs} r p offset h =
    let inv = Reach-Invariant r in
    let at = get-commit_offsets_of m.partitions [] p inv.tracks.distinct in
    elim (Option-cases (Dict.get m.partitions p)) [
      | inl q ↦ absurd (ground (arith, at, q, h))
      | inr q ↦
          let s = q.0 in
          let found : commit_offset s ≡ some offset = ground (arith, at, q.1, h) in
          let safe = commit_offset-IsSafe s offset found in
          let tracks = inv.tracks.held p s q.1 in
          (
            s,
            q.1,
            λ k w o g i.
                AtMost-trans offset w.first_offset (some o)
                  (All-get (λ e. AtMost offset e.1.first_offset) s.windows k w safe.windows g)
                  (rw ((tracks.opened k w g).1) (lowest-AtMost k o (logs p) i)),
          )
    ]
