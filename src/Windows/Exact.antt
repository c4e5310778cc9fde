-- ===== src/Windows/Exact.antt =====
-- processors/windows.py: every count that is written is the number of edits accepted for its minute.
use wikistream_kafka.Prelude.{
  ℕ, ◌≡◌, refl, inl, inr, String, Bool, List, [], ◌∷◌, arith, nat_eq, leb, if◌then◌else◌,
  Bool-cases, Option-cases, contains-insert, contains-filter, same_refl, All, All-append,
}
use wikistream_kafka.Dict
use wikistream_kafka.Dict.{get-remove}
use wikistream_kafka.Windows.{
  WindowKey, key_eq, ClosedWindow, PartitionState, minute_start, closed_before, observe, too_late,
  put_edit, add_to,
}
use wikistream_kafka.Windows.Counting.{
  Log, occurrences, Tracks, observe-Tracks, put_edit-Tracks, enforce_cap-Tracks,
}
use wikistream_kafka.Windows.Close.{closed_window, pop_window, pop_all, done, forget_old, pop_state}

-- The window of an edit.
abbrev pub key_of : String → String → ℕ → WindowKey
key_of wiki title event_time_ms = record {
  wiki = wiki;
  title = title;
  minute = minute_start event_time_ms;
}

module _ (lateness_ms max_windows : ℕ) (s : PartitionState) (offset : ℕ) (wiki title : String)
    (event_time_ms : ℕ) (log : Log) where
  -- The log after the event: longer by the edit if `add` accepted it.
  abbrev pub logged : Log
  logged =
      if (add_to lateness_ms max_windows s offset wiki title event_time_ms).1
      then (key_of wiki title event_time_ms, offset) ∷ log
      else log

  pub add_to-Tracks :
      Tracks lateness_ms s log
      → Tracks lateness_ms
          (add_to lateness_ms max_windows s offset wiki title event_time_ms).0
          logged
  unfolding add_to
  add_to-Tracks h =
      let seen = observe s offset event_time_ms in
      let key = key_of wiki title event_time_ms in
      let h' = observe-Tracks lateness_ms s offset event_time_ms h in
      elim (Bool-cases (too_late lateness_ms seen key)) [
        | inl q ↦ rw q h'
        | inr q ↦ rw q (
            enforce_cap-Tracks lateness_ms max_windows (put_edit seen key offset)
              (put_edit-Tracks lateness_ms seen log key offset q h'))
      ]

-- A written row holds the number of edits accepted for its page and minute.
abbrev pub IsExact : Log → ClosedWindow → Type 0
IsExact log c =
    c.count ≡ occurrences (record { wiki = c.wiki; title = c.title; minute = c.minute_ms }) log

-- What holds while windows are popped.
record Popping (lateness_ms cutoff : ℕ) (log : Log) (E : ClosedWindow → Type 0) (s : PartitionState)
    (closed : List ClosedWindow) : Type 0 where
  tracks : Tracks lateness_ms s log
  cut : closed_before lateness_ms s ≡ cutoff
  exact : All E closed

module _ (lateness_ms : ℕ) (final : Bool) (cutoff : ℕ) (log : Log) (E : ClosedWindow → Type 0)
    (weaken : (c : ClosedWindow) → IsExact log c → E c) where
  pop_window-Popping :
      (k : WindowKey) (s : PartitionState) (closed : List ClosedWindow)
      → Popping lateness_ms cutoff log E s closed
      → Popping lateness_ms cutoff log E
          (pop_window final cutoff k (s, closed)).0
          (pop_window final cutoff k (s, closed)).1
  unfolding pop_window closed_before
  pop_window-Popping k s closed h = elim (Option-cases (Dict.get s.windows k)) [
    | inl q ↦ rw (q, pop_window) h
    | inr q ↦
        rw (q.1, pop_window)
          (record {
            tracks = record {
              opened = λ j w g. ground (arith, h.tracks.opened j w, get-remove s.windows k j);
              absent = λ j g. ground (
                arith,
                h.tracks.absent j,
                get-remove s.windows k j,
                key_eq.same_iff k j,
                contains-insert s.flushed_minutes k.minute j.minute,
                same_refl k.minute,
              );
            };
            cut = h.cut;
            exact =
                All-append E closed (closed_window k q.0 ∷ []) h.exact
                  (weaken (closed_window k q.0) (h.tracks.opened k q.0 q.1).0, tt);
          })
  ]

  pop_all-Popping :
      (ks : List WindowKey) (s : PartitionState) (closed : List ClosedWindow)
      → Popping lateness_ms cutoff log E s closed
      → Popping lateness_ms cutoff log E
          (pop_all final cutoff ks (s, closed)).0
          (pop_all final cutoff ks (s, closed)).1
  unfolding pop_all
  pop_all-Popping [] s closed h = h
  pop_all-Popping (k ∷ ks) s closed h =
      let (s', closed') = pop_window final cutoff k (s, closed) in
      pop_all-Popping ks s' closed' (pop_window-Popping k s closed h)

forget_old-Tracks :
    (lateness_ms cutoff : ℕ) (log : Log) (s : PartitionState)
    → closed_before lateness_ms s ≡ cutoff
    → Tracks lateness_ms s log
    → Tracks lateness_ms (forget_old cutoff s) log
unfolding closed_before
forget_old-Tracks lateness_ms cutoff log s cut h = record {
  opened = h.opened;
  absent = λ k g.
      ground
        (arith, h.absent k g, contains-filter (λ (m : ℕ). leb cutoff m) s.flushed_minutes k.minute);
}

pub pop_state-Tracks :
    (lateness_ms : ℕ) (final : Bool) (log : Log) (E : ClosedWindow → Type 0)
    → ((c : ClosedWindow) → IsExact log c → E c)
    → (s : PartitionState) (closed : List ClosedWindow) → Tracks lateness_ms s log
    → All E closed
    → Tracks lateness_ms (pop_state lateness_ms final s closed).0 log
      × All E (pop_state lateness_ms final s closed).1
unfolding pop_state
pop_state-Tracks lateness_ms final log E weaken s closed h e =
    let cutoff = closed_before lateness_ms s in
    let ks = done final cutoff s in
    let p =
      pop_all-Popping lateness_ms final cutoff log E weaken ks s closed
        (record { tracks = h; cut = refl; exact = e }) in
    (
      forget_old-Tracks lateness_ms cutoff log (pop_all final cutoff ks (s, closed)).0 p.cut
          p.tracks,
      p.exact,
    )
