-- ===== src/Windows/Numbered.antt =====
-- processors/windows.py: every open window knows the offset of an edit.
use wikistream_kafka.Prelude.{
  ℕ, zero, suc, String, ◌≡◌, refl, inl, inr, Bool, false, List, [], ◌∷◌, nat_eq, Bool-cases,
  Option-cases, All, ltb, length,
}
use wikistream_kafka.Dict
use wikistream_kafka.Dict.{Dict, keys, get-remove, contains-keys, All-put, All-get, All-remove}
use wikistream_kafka.Dict.Bulk.{All-delete_all}
use wikistream_kafka.Offset.{unset}
use wikistream_kafka.Windows.{
  WindowKey, key_eq, new_window, ClosedWindow, PartitionState, new_state, MinuteWindows, state,
  add_offset, force_out, cap_rounds, enforce_cap, observe, too_late, put_edit, add_to,
  closed_before,
}
use wikistream_kafka.Windows.Close.{
  pop_window, pop_all, pop_state, pop_partitions, pop_closed, revoke,
}
use wikistream_kafka.Windows.Commit.{lower_first-new}
use wikistream_kafka.Windows.Exact.{key_of}
use wikistream_kafka.Windows.Runs.{Logs, Reach, start, edit, pop, rebalance, partitions-add, after}

-- Every open window knows an offset.
abbrev pub Numbered : PartitionState → Type 0
Numbered s = All (λ e. unset e.1.first_offset ≡ false) s.windows

put_edit-Numbered :
    (s : PartitionState) (key : WindowKey) (offset : ℕ)
    → Numbered s
    → Numbered (put_edit s key offset)
unfolding put_edit add_offset
put_edit-Numbered s key offset h =
    let w = Dict.get_or s.windows key new_window in
    let (v, e, le) = lower_first-new w.first_offset offset in
    All-put (λ e. unset e.1.first_offset ≡ false) s.windows key (add_offset w offset) h (rw e refl)

cap_rounds-Numbered :
    (max_windows rounds : ℕ) (s : PartitionState)
    → Numbered s
    → Numbered (cap_rounds max_windows rounds s)
unfolding cap_rounds force_out
cap_rounds-Numbered max_windows zero s h = h
cap_rounds-Numbered max_windows (suc rounds) s h =
    elim (Bool-cases (ltb max_windows (length s.windows))) [
      | inl q ↦ rw q (
          cap_rounds-Numbered max_windows rounds (force_out s)
            (All-delete_all (λ e. unset e.1.first_offset ≡ false) s.windows _ h))
      | inr q ↦ rw q h
    ]

add_to-Numbered :
    (lateness_ms max_windows : ℕ) (s : PartitionState) (offset : ℕ) (wiki title : String)
    (event_time_ms : ℕ)
    → Numbered s
    → Numbered (add_to lateness_ms max_windows s offset wiki title event_time_ms).0
unfolding add_to enforce_cap observe
add_to-Numbered lateness_ms max_windows s offset wiki title event_time_ms h =
    let seen = observe s offset event_time_ms in
    let key = key_of wiki title event_time_ms in
    elim (Bool-cases (too_late lateness_ms seen key)) [
      | inl q ↦ rw q h
      | inr q ↦ rw q (
          cap_rounds-Numbered max_windows _ (put_edit seen key offset)
            (put_edit-Numbered seen key offset h))
    ]

module _ (final : Bool) (cutoff : ℕ) where
  pub pop_window-Numbered :
      (k : WindowKey) (s : PartitionState) (closed : List ClosedWindow)
      → Numbered s
      → Numbered (pop_window final cutoff k (s, closed)).0
  unfolding pop_window
  pop_window-Numbered k s closed h = elim (Option-cases (Dict.get s.windows k)) [
    | inl q ↦ rw (q, pop_window) h
    | inr q ↦ rw (q.1, pop_window) (All-remove (λ e. unset e.1.first_offset ≡ false) s.windows k h)
  ]

  pop_all-Numbered :
      (ks : List WindowKey) (s : PartitionState) (closed : List ClosedWindow)
      → Numbered s
      → Numbered (pop_all final cutoff ks (s, closed)).0
  unfolding pop_all
  pop_all-Numbered [] s closed h = h
  pop_all-Numbered (k ∷ ks) s closed h =
      let (s', closed') = pop_window final cutoff k (s, closed) in
      pop_all-Numbered ks s' closed' (pop_window-Numbered k s closed h)

abbrev pub AllNumbered : Dict ℕ PartitionState → Type 0
AllNumbered d = All (λ e. Numbered e.1) d

pop_partitions-Numbered :
    (lateness_ms : ℕ) (final : Bool) (d : Dict ℕ PartitionState) (closed : List ClosedWindow)
    → AllNumbered d
    → AllNumbered (pop_partitions lateness_ms final d closed).0
unfolding pop_partitions pop_state
pop_partitions-Numbered lateness_ms final [] closed h = tt
pop_partitions-Numbered lateness_ms final ((p, s) ∷ d) closed h = (
  pop_all-Numbered final (closed_before lateness_ms s) _ s closed h.0,
  pop_partitions-Numbered lateness_ms final d _ h.1,
)

state-Numbered :
    (d : Dict ℕ PartitionState) (p : ℕ) → AllNumbered d → Numbered (Dict.get_or d p new_state)
unfolding Dict.get_or
state-Numbered d p h = elim (Option-cases (Dict.get d p)) [
  | inl q ↦ rw (q, Dict.get_or) tt
  | inr q ↦ rw (q.1, Dict.get_or) (All-get (λ e. Numbered e.1) d p q.0 h q.1)
]

revoke-Numbered :
    (m : MinuteWindows) (ps : List ℕ)
    → AllNumbered m.partitions
    → AllNumbered (revoke m ps).partitions
unfolding revoke
revoke-Numbered m [] h = h
revoke-Numbered m (p ∷ ps) h =
    revoke-Numbered (record m { partitions = Dict.remove m.partitions p }) ps
      (All-remove (λ e. Numbered e.1) m.partitions p h)

pub Reach-Numbered :
    {lateness_ms max_windows : ℕ} {m : MinuteWindows} {logs : Logs}
    → Reach lateness_ms max_windows m logs
    → AllNumbered m.partitions
unfolding pop_closed
Reach-Numbered start = tt
Reach-Numbered (edit {m} r partition offset wiki title time) =
    let h = Reach-Numbered r in
    rw (partitions-add m partition offset wiki title time) (
      All-put (λ e. Numbered e.1) m.partitions partition (after m partition offset wiki title time)
        h
        (add_to-Numbered m.lateness_ms m.max_windows (state m partition) offset wiki title time
          (state-Numbered m.partitions partition h)))
Reach-Numbered (pop {m} r final) =
    pop_partitions-Numbered m.lateness_ms final m.partitions [] (Reach-Numbered r)
Reach-Numbered (rebalance {m} r ps) = revoke-Numbered m ps (Reach-Numbered r)
