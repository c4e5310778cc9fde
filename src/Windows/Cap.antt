-- ===== src/Windows/Cap.antt =====
-- processors/windows.py: what `_enforce_cap` keeps and drops.
use wikistream_kafka.Prelude.{
  ℕ, zero, suc, ◌≤◌, ◌<◌, ◌≡◌, refl, ◌⊎◌, inl, inr, min, true, ◌||◌, none, some, List, [], ◌∷◌,
  arith, nat_eq, ◌==◌, contains, ltb, if◌then◌else◌, Bool-cases, Option-cases, length, filter,
  contains-filter, contains-insert,
}
use wikistream_kafka.Dict
use wikistream_kafka.Dict.{
  Dict, keys, get-remove, contains-keys, length-remove-le, length-remove-lt,
}
use wikistream_kafka.Dict.Bulk.{get-delete_all, length-delete_all-lt}
use wikistream_kafka.Windows.{
  WindowKey, key_eq, Window, PartitionState, oldest, oldest_minute, force_out, cap_rounds,
  enforce_cap, closed_before,
}

abbrev Windows : Type 0
Windows = Dict WindowKey Window

-- The windows that a round leaves: those of every other minute.
pub get-force_out :
    (s : PartitionState) (k : WindowKey)
    → Dict.get (force_out s).windows k
      ≡ (if k.minute == oldest s.windows then none else Dict.get s.windows k)
unfolding force_out
get-force_out s k =
    let gone : List WindowKey =
      filter (λ (j : WindowKey). j.minute == oldest s.windows) (keys s.windows) in
    ground (
      arith,
      get-delete_all s.windows gone k,
      contains-filter (λ (j : WindowKey). j.minute == oldest s.windows) (keys s.windows) k,
      contains-keys s.windows k,
    )

-- A round marks its minute as written, and leaves the cutoff alone.
pub contains-force_out :
    (s : PartitionState) (minute : ℕ)
    → contains (force_out s).flushed_minutes minute
      ≡ (oldest s.windows == minute || contains s.flushed_minutes minute)
unfolding force_out
contains-force_out s minute = contains-insert s.flushed_minutes (oldest s.windows) minute

pub closed_before-force_out :
    (lateness_ms : ℕ) (s : PartitionState)
    → closed_before lateness_ms (force_out s) ≡ closed_before lateness_ms s
unfolding closed_before force_out
closed_before-force_out lateness_ms s = refl

-- The least minute is that of a key.
oldest_minute-at :
    (least : WindowKey) (d : Windows)
    → (k : WindowKey) × ((k ≡ least) ⊎ (contains (keys d) k ≡ true))
      × (k.minute ≡ oldest_minute least.minute d)
unfolding oldest_minute contains
oldest_minute-at least [] = (least, inl refl, refl)
oldest_minute-at least ((j, w) ∷ d) = elim (Bool-cases (ltb least.minute j.minute)) [
  | inl q ↦
      let (k, at, m) = oldest_minute-at least d in
      let low : min least.minute j.minute ≡ least.minute = ground arith in
      (k, ground arith, rw low m)
  | inr q ↦
      let (k, at, m) = oldest_minute-at j d in
      let low : min least.minute j.minute ≡ j.minute = ground arith in
      (k, ground (arith, key_eq.same_iff j k), rw low m)
]

oldest-at :
    (d : Windows)
    → 0 < length d
    → (k : WindowKey) × (w : Window) × (Dict.get d k ≡ some w) × (k.minute ≡ oldest d)
unfolding oldest contains
oldest-at [] h = absurd (omega arith)
oldest-at ((k, w) ∷ d) h =
    let (j, at, m) = oldest_minute-at k d in
    let there : contains (keys ((k, w) ∷ d)) j ≡ true = ground (arith, key_eq.same_iff k j) in
    elim (Option-cases (Dict.get ((k, w) ∷ d) j)) [
      | inl q ↦ absurd (ground (arith, contains-keys ((k, w) ∷ d) j))
      | inr q ↦ (j, q.0, q.1, m)
    ]

-- Every round on a partition that holds a window deletes one.
length-force_out-lt :
    (s : PartitionState) → 0 < length s.windows → length (force_out s).windows < length s.windows
unfolding force_out
length-force_out-lt s h =
    let (k, w, found, m) = oldest-at s.windows h in
    let gone : List WindowKey =
      filter (λ (j : WindowKey). j.minute == oldest s.windows) (keys s.windows) in
    let there : contains gone k ≡ true = ground (
      arith,
      contains-filter (λ (j : WindowKey). j.minute == oldest s.windows) (keys s.windows) k,
      contains-keys s.windows k,
    ) in
    length-delete_all-lt s.windows gone k w there found

-- `_enforce_cap` ends, and within the cap: as many rounds as there are windows are enough.
cap_rounds-le :
    (max_windows rounds : ℕ) (s : PartitionState)
    → length s.windows ≤ rounds
    → length (cap_rounds max_windows rounds s).windows ≤ max_windows
unfolding cap_rounds
cap_rounds-le max_windows zero s h = omega arith
cap_rounds-le max_windows (suc rounds) s h =
    elim (Bool-cases (ltb max_windows (length s.windows))) [
      | inl q ↦ rw q (
          cap_rounds-le max_windows rounds (force_out s) (
            let pos : 0 < length s.windows = ground arith in
            omega (arith, length-force_out-lt s pos)))
      | inr q ↦ rw q (ground arith)
    ]

-- Whatever a partition holds, `_enforce_cap` ends with at most `max_windows` windows.
pub enforce_cap-le :
    (max_windows : ℕ) (s : PartitionState)
    → length (enforce_cap max_windows s).windows ≤ max_windows
unfolding enforce_cap
enforce_cap-le max_windows s = cap_rounds-le max_windows (length s.windows) s (omega arith)
