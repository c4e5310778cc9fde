-- ===== src/Windows/Counting.antt =====
-- processors/windows.py: the counts of the open windows against the list of accepted edits.
use wikistream_kafka.Prelude.{
  ℕ, zero, suc, ◌+◌, ◌≤◌, ◌≡◌, refl, ◌⊎◌, inl, inr, Bool, true, false, ◌||◌, none, some, List, [],
  ◌∷◌, arith, nat_eq, ◌==◌, contains, ltb, if◌then◌else◌, Bool-cases, Option-cases, length,
  same_refl, subst,
}
use wikistream_kafka.Dict
use wikistream_kafka.Dict.{Dict, keys, get-put, contains-keys}
use wikistream_kafka.Offset.{Offset}
use wikistream_kafka.Windows.{
  WindowKey, key_eq, Window, new_window, lower_first, add_offset, PartitionState, new_state,
  minute_start, closed_before, force_out, cap_rounds, enforce_cap, observe, too_late, put_edit,
}
use wikistream_kafka.Windows.Cap.{get-force_out, contains-force_out, closed_before-force_out}

-- The edits that `add` accepted on one partition, newest first: window and offset.
abbrev pub Log : Type 0
Log = List (WindowKey × ℕ)

-- How many accepted edits belong to a window.
unfoldable pub occurrences : WindowKey → Log → ℕ
occurrences k [] = 0
occurrences k ((j, o) ∷ log) = (if j == k then 1 else 0) + occurrences k log

-- The lowest offset among them.
unfoldable pub lowest : WindowKey → Log → Offset
lowest k [] = none
lowest k ((j, o) ∷ log) = if j == k then lower_first (lowest k log) o else lowest k log

-- The minute is one that `add` refuses to open again.
abbrev pub is_closed : ℕ → PartitionState → WindowKey → Bool
is_closed lateness_ms s k =
    ltb k.minute (closed_before lateness_ms s) || contains s.flushed_minutes k.minute

-- An open window holds all its edits; a window that is not open has none, or is closed for good.
pub record Tracks (lateness_ms : ℕ) (s : PartitionState) (log : Log) : Type 0 where
  pub opened :
      (k : WindowKey) (w : Window)
      → Dict.get s.windows k ≡ some w
      → (w.count ≡ occurrences k log) × (w.first_offset ≡ lowest k log)
  pub absent :
      (k : WindowKey)
      → Dict.get s.windows k ≡ none
      → (occurrences k log ≡ 0) ⊎ (is_closed lateness_ms s k ≡ true)

pub closed_before_mono :
    (lateness_ms : ℕ) (s t : PartitionState)
    → s.watermark_ms ≤ t.watermark_ms
    → closed_before lateness_ms s ≤ closed_before lateness_ms t
unfolding closed_before minute_start
closed_before_mono lateness_ms s t h = omega arith

pub Tracks-new : (lateness_ms : ℕ) → Tracks lateness_ms new_state []
unfolding occurrences Dict.get
Tracks-new lateness_ms = record {
  opened = λ k w h. absurd (ground arith);
  absent = λ k h. inl refl;
}

lowest_of_none : (k : WindowKey) (log : Log) → occurrences k log ≡ 0 → lowest k log ≡ none
unfolding occurrences lowest
lowest_of_none k [] h = refl
lowest_of_none k ((j, o) ∷ log) h = ground (arith, lowest_of_none k log)

-- A window that is opened now has had no edit before.
fresh_window :
    (lateness_ms : ℕ) (s : PartitionState) (log : Log) (key : WindowKey)
    → too_late lateness_ms s key ≡ false
    → Tracks lateness_ms s log
    → Dict.get s.windows key ≡ none
    → occurrences key log ≡ 0
fresh_window lateness_ms s log key ontime h g =
    ground (arith, h.absent key g, contains-keys s.windows key)

-- The window that the edit is counted in.
counted_window :
    (lateness_ms : ℕ) (s : PartitionState) (log : Log) (key : WindowKey) (offset : ℕ)
    → too_late lateness_ms s key ≡ false
    → Tracks lateness_ms s log
    → (w : Window) → add_offset (Dict.get_or s.windows key new_window) offset ≡ w
    → (w.count ≡ occurrences key ((key, offset) ∷ log))
      × (w.first_offset ≡ lowest key ((key, offset) ∷ log))
unfolding add_offset Dict.get_or occurrences lowest
counted_window lateness_ms s log key offset ontime h w e =
    elim (Option-cases (Dict.get s.windows key)) [
      | inl g ↦
          let none_yet = fresh_window lateness_ms s log key ontime h g in
          ground (arith, same_refl key, lowest_of_none key log none_yet)
      | inr g ↦ ground (arith, same_refl key, h.opened key g.0 g.1)
    ]

module _ (lateness_ms : ℕ) {log : Log} where
  pub observe-Tracks :
      (s : PartitionState) (offset time : ℕ)
      → Tracks lateness_ms s log
      → Tracks lateness_ms (observe s offset time) log
  unfolding observe
  observe-Tracks s offset time h = record {
    opened = h.opened;
    absent = λ k g. ground (
      arith,
      h.absent k g,
      closed_before_mono lateness_ms s (observe s offset time) (omega arith),
    );
  }

  force_out-Tracks :
      (s : PartitionState) → Tracks lateness_ms s log → Tracks lateness_ms (force_out s) log
  force_out-Tracks s h = record {
    opened = λ k w g. ground (arith, get-force_out s k, h.opened k w);
    absent = λ k g. ground (
      arith,
      get-force_out s k,
      contains-force_out s k.minute,
      closed_before-force_out lateness_ms s,
      h.absent k,
    );
  }

  cap_rounds-Tracks :
      (max_windows rounds : ℕ) (s : PartitionState)
      → Tracks lateness_ms s log
      → Tracks lateness_ms (cap_rounds max_windows rounds s) log
  unfolding cap_rounds
  cap_rounds-Tracks max_windows zero s h = h
  cap_rounds-Tracks max_windows (suc rounds) s h =
      elim (Bool-cases (ltb max_windows (length s.windows))) [
        | inl q ↦ rw q (cap_rounds-Tracks max_windows rounds (force_out s) (force_out-Tracks s h))
        | inr q ↦ rw q h
      ]

  pub enforce_cap-Tracks :
      (max_windows : ℕ) (s : PartitionState)
      → Tracks lateness_ms s log
      → Tracks lateness_ms (enforce_cap max_windows s) log
  unfolding enforce_cap
  enforce_cap-Tracks max_windows s = cap_rounds-Tracks max_windows (length s.windows) s

module _ (lateness_ms : ℕ) (s : PartitionState) (log : Log) (key : WindowKey) (offset : ℕ) where
  pub get-put_edit :
      (k : WindowKey)
      → Dict.get (put_edit s key offset).windows k ≡ (
          if key == k
          then some (add_offset (Dict.get_or s.windows key new_window) offset)
          else Dict.get s.windows k)
  unfolding put_edit
  get-put_edit k =
      get-put s.windows key k (add_offset (Dict.get_or s.windows key new_window) offset)

  -- Counting an edit that is not too late keeps the counts exact.
  pub put_edit-Tracks :
      too_late lateness_ms s key ≡ false
      → Tracks lateness_ms s log
      → Tracks lateness_ms (put_edit s key offset) ((key, offset) ∷ log)
  put_edit-Tracks ontime h = record {
    opened = λ k w g. elim (Bool-cases (key == k)) [
      | inl q ↦
          subst
            (λ (x : WindowKey).
              (w.count ≡ occurrences x ((key, offset) ∷ log))
              × (w.first_offset ≡ lowest x ((key, offset) ∷ log)))
            ((key_eq.same_iff key k).0 q)
            (counted_window lateness_ms s log key offset ontime h w
              (ground (arith, get-put_edit k)))
      | inr q ↦ unfold occurrences lowest in ground (arith, h.opened k w, get-put_edit k)
    ];
    absent = λ k g.
        unfold occurrences lowest closed_before put_edit in
        ground (arith, h.absent k, get-put_edit k);
  }
