-- ===== src/Windows/Once.antt =====
-- processors/windows.py: a page's minute is written once by one owner of a partition.
use wikistream_kafka.Prelude.{
  ℕ, ◌≡◌, ◌≢◌, inl, inr, String, Bool, false, none, some, [], arith, nat_eq, leb, contains-filter,
  In,
}
use wikistream_kafka.Dict
use wikistream_kafka.Windows.{
  WindowKey, key_eq, Window, ClosedWindow, PartitionState, closed_before, enforce_cap, add_to,
}
use wikistream_kafka.Windows.Close.{pop_all, done, forget_old, pop_state}
use wikistream_kafka.Windows.Exact.{key_of}
use wikistream_kafka.Windows.Sealing.{
  Sealed, row_key, add_to-Sealed, add_to_refuses, enforce_cap_seals,
}
use wikistream_kafka.Windows.Popping.{pop_all-Sealed, pop_all-Row, pop_all_cutoff}

-- The edits and the flushes of one partition, in any order, while one instance owns it.
pub data Steps (lateness_ms max_windows : ℕ) (s : PartitionState) : PartitionState → Type 0 where
  here : Steps lateness_ms max_windows s s
  edited :
      {t : PartitionState}
      → Steps lateness_ms max_windows s t
      → (offset : ℕ) (wiki title : String) (time : ℕ)
      → Steps lateness_ms max_windows s (add_to lateness_ms max_windows t offset wiki title time).0
  flushed :
      {t : PartitionState}
      → Steps lateness_ms max_windows s t
      → (final : Bool) → Steps lateness_ms max_windows s (pop_state lateness_ms final t []).0

forget_old-Sealed :
    (lateness_ms cutoff : ℕ) (s : PartitionState) (k : WindowKey)
    → closed_before lateness_ms s ≡ cutoff
    → Sealed lateness_ms s k
    → Sealed lateness_ms (forget_old cutoff s) k
unfolding closed_before
forget_old-Sealed lateness_ms cutoff s k cut h = record {
  gone = h.gone;
  refused =
      ground
        (arith, h.refused, contains-filter (λ (m : ℕ). leb cutoff m) s.flushed_minutes k.minute);
}

pop_state-Sealed :
    (lateness_ms : ℕ) (final : Bool) (s : PartitionState) (k : WindowKey)
    → Sealed lateness_ms s k
    → Sealed lateness_ms (pop_state lateness_ms final s []).0 k
unfolding pop_state
pop_state-Sealed lateness_ms final s k h =
    let cutoff = closed_before lateness_ms s in
    let ks = done final cutoff s in
    forget_old-Sealed lateness_ms cutoff (pop_all final cutoff ks (s, [])).0 k
      (pop_all_cutoff lateness_ms final cutoff ks s [])
      (pop_all-Sealed lateness_ms final cutoff k ks s [] h)

Steps-Sealed :
    (lateness_ms max_windows : ℕ) (s : PartitionState) (k : WindowKey) {t : PartitionState}
    → Sealed lateness_ms s k
    → Steps lateness_ms max_windows s t
    → Sealed lateness_ms t k
Steps-Sealed lateness_ms max_windows s k h here = h
Steps-Sealed lateness_ms max_windows s k h (edited {t} r offset wiki title time) =
    add_to-Sealed lateness_ms k max_windows t offset wiki title time
      (Steps-Sealed lateness_ms max_windows s k h r)
Steps-Sealed lateness_ms max_windows s k h (flushed {t} r final) =
    pop_state-Sealed lateness_ms final t k (Steps-Sealed lateness_ms max_windows s k h r)

-- A row that `pop_state` returns is sealed from then on.
pop_state_seals :
    (lateness_ms : ℕ) (final : Bool) (s : PartitionState) (c : ClosedWindow)
    → In c (pop_state lateness_ms final s []).1
    → (w : Window) × (Dict.get s.windows (row_key c) ≡ some w)
      × (c.count ≡ w.count)
      × Sealed lateness_ms (pop_state lateness_ms final s []).0 (row_key c)
unfolding pop_state
pop_state_seals lateness_ms final s c i =
    let cutoff = closed_before lateness_ms s in
    let ks = done final cutoff s in
    elim (pop_all-Row lateness_ms final cutoff c ks s [] i) [
      | inl no_row ↦ absurd no_row
      | inr (w, g, e, sealed) ↦ (
        w,
        g,
        e,
        forget_old-Sealed lateness_ms cutoff (pop_all final cutoff ks (s, [])).0 (row_key c)
            (pop_all_cutoff lateness_ms final cutoff ks s []) sealed,
      )
    ]

-- What being closed for good means for everything that can still happen to the partition.
pub record IsOver (lateness_ms max_windows : ℕ) (s : PartitionState) (k : WindowKey) : Type 0 where
  pub never_counted :
      (t : PartitionState)
      → Steps lateness_ms max_windows s t
      → (offset : ℕ) (wiki title : String) (time : ℕ) → key_of wiki title time ≡ k
      → (add_to lateness_ms max_windows t offset wiki title time).1 ≡ false
  pub never_written :
      (t : PartitionState)
      → Steps lateness_ms max_windows s t
      → (final : Bool) (c : ClosedWindow) → In c (pop_state lateness_ms final t []).1
      → row_key c ≢ k

Sealed-IsOver :
    (lateness_ms max_windows : ℕ) (s : PartitionState) (k : WindowKey)
    → Sealed lateness_ms s k
    → IsOver lateness_ms max_windows s k
Sealed-IsOver lateness_ms max_windows s k h = record {
  never_counted = λ t r offset wiki title time q.
      add_to_refuses lateness_ms k max_windows t offset wiki title time
        (Steps-Sealed lateness_ms max_windows s k h r) q;
  never_written = λ t r final c i same.
      let (w, g, e, sealed) = pop_state_seals lateness_ms final t c i in
      let gone = (Steps-Sealed lateness_ms max_windows s k h r).gone in
      let open_still : Dict.get t.windows k ≡ some w = rw same at g in cc (gone, open_still);
}

-- A page's minute that a flush returned, final or not, is over for this owner of the partition:
-- whatever edits and flushes follow, every further edit of that page and minute is refused, and no
-- later flush returns it again.
pub written_once :
    (lateness_ms max_windows : ℕ) (final : Bool) (s : PartitionState) (c : ClosedWindow)
    → In c (pop_state lateness_ms final s []).1
    → IsOver lateness_ms max_windows (pop_state lateness_ms final s []).0 (row_key c)
written_once lateness_ms max_windows final s c i =
    let (w, g, e, sealed) = pop_state_seals lateness_ms final s c i in
    Sealed-IsOver lateness_ms max_windows (pop_state lateness_ms final s []).0 (row_key c) sealed

-- A window that the cap forces out, with every edit that it counted, is lost: it is over for this
-- owner, so no flush ever returns it, although `add` had accepted its edits.
pub forced_out_lost :
    (lateness_ms max_windows : ℕ) (s : PartitionState) (k : WindowKey) (w : Window)
    → Dict.get s.windows k ≡ some w
    → Dict.get (enforce_cap max_windows s).windows k ≡ none
    → IsOver lateness_ms max_windows (enforce_cap max_windows s) k
forced_out_lost lateness_ms max_windows s k w g h =
    Sealed-IsOver lateness_ms max_windows (enforce_cap max_windows s) k
      (enforce_cap_seals lateness_ms k max_windows s w g h)
