-- ===== src/Windows/Sealing.antt =====
-- processors/windows.py: a window that was popped or forced out stays closed for good.
use wikistream_kafka.Prelude.{
  ℕ, zero, suc, ◌≡◌, inl, inr, String, true, false, none, some, [], arith, nat_eq, ltb, Bool-cases,
  Option-cases, length,
}
use wikistream_kafka.Dict
use wikistream_kafka.Dict.{get-put, get-remove, contains-keys, keys}
use wikistream_kafka.Windows.{
  WindowKey, key_eq, Window, ClosedWindow, PartitionState, closed_before, observe, too_late,
  force_out, cap_rounds, enforce_cap, put_edit, add_to,
}
use wikistream_kafka.Windows.Cap.{get-force_out, contains-force_out, closed_before-force_out}
use wikistream_kafka.Windows.Counting.{is_closed, closed_before_mono, get-put_edit}
use wikistream_kafka.Windows.Exact.{key_of}

-- Not open, and of a minute that `add` refuses to open.
pub record Sealed (lateness_ms : ℕ) (s : PartitionState) (k : WindowKey) : Type 0 where
  pub gone : Dict.get s.windows k ≡ none
  pub refused : is_closed lateness_ms s k ≡ true

-- The key of a row that was written.
abbrev pub row_key : ClosedWindow → WindowKey
row_key c = record { wiki = c.wiki; title = c.title; minute = c.minute_ms }

module _ (lateness_ms : ℕ) (k : WindowKey) where
  observe-Sealed :
      (s : PartitionState) (offset time : ℕ)
      → Sealed lateness_ms s k
      → Sealed lateness_ms (observe s offset time) k
  unfolding observe
  observe-Sealed s offset time h = record {
    gone = h.gone;
    refused =
        ground (
          arith,
          h.refused,
          closed_before_mono lateness_ms s (observe s offset time) (omega arith),
        );
  }

  force_out-Sealed :
      (s : PartitionState) → Sealed lateness_ms s k → Sealed lateness_ms (force_out s) k
  force_out-Sealed s h = record {
    gone = ground (arith, get-force_out s k, h.gone);
    refused =
        ground
          (arith, h.refused, contains-force_out s k.minute, closed_before-force_out lateness_ms s);
  }

  cap_rounds-Sealed :
      (max_windows rounds : ℕ) (s : PartitionState)
      → Sealed lateness_ms s k
      → Sealed lateness_ms (cap_rounds max_windows rounds s) k
  unfolding cap_rounds
  cap_rounds-Sealed max_windows zero s h = h
  cap_rounds-Sealed max_windows (suc rounds) s h =
      elim (Bool-cases (ltb max_windows (length s.windows))) [
        | inl q ↦ rw q (cap_rounds-Sealed max_windows rounds (force_out s) (force_out-Sealed s h))
        | inr q ↦ rw q h
      ]

  -- What the cap forces out is sealed.
  cap_rounds_seals :
      (max_windows rounds : ℕ) (s : PartitionState) (w : Window)
      → Dict.get s.windows k ≡ some w
      → Dict.get (cap_rounds max_windows rounds s).windows k ≡ none
      → Sealed lateness_ms (cap_rounds max_windows rounds s) k
  unfolding cap_rounds
  cap_rounds_seals max_windows zero s w g h = absurd (cc (g, h))
  cap_rounds_seals max_windows (suc rounds) s w g h =
      elim (Bool-cases (ltb max_windows (length s.windows))) [
        | inl q ↦ rw q (elim (Option-cases (Dict.get (force_out s).windows k)) [
          | inl out ↦ cap_rounds-Sealed max_windows rounds (force_out s) (record {
            gone = out;
            refused = ground (arith, g, out, get-force_out s k, contains-force_out s k.minute);
          })
          | inr kept ↦ cap_rounds_seals max_windows rounds (force_out s) kept.0 kept.1 (rw q at h)
        ])
        | inr q ↦ absurd (let h' : Dict.get s.windows k ≡ none = rw q at h in cc (g, h'))
      ]

  -- An edit for a sealed window is refused; whatever the edit, the window stays sealed.
  pub add_to_refuses :
      (max_windows : ℕ) (s : PartitionState) (offset : ℕ) (wiki title : String) (time : ℕ)
      → Sealed lateness_ms s k
      → key_of wiki title time ≡ k
      → (add_to lateness_ms max_windows s offset wiki title time).1 ≡ false
  unfolding add_to
  add_to_refuses max_windows s offset wiki title time h q =
      let seen = observe s offset time in
      let h' = observe-Sealed s offset time h in
      let late : too_late lateness_ms seen (key_of wiki title time) ≡ true =
        rw q (ground (arith, h'.refused, h'.gone, contains-keys seen.windows k)) in
      rw late

  put_edit-Sealed :
      (s : PartitionState) (key : WindowKey) (offset : ℕ)
      → too_late lateness_ms s key ≡ false
      → Sealed lateness_ms s k
      → Sealed lateness_ms (put_edit s key offset) k
  put_edit-Sealed s key offset ontime h = record {
    gone = ground (
      arith,
      get-put_edit lateness_ms s [] key offset k,
      key_eq.same_iff key k,
      contains-keys s.windows k,
      h.gone,
      h.refused,
    );
    refused = unfold put_edit closed_before in h.refused;
  }

  pub add_to-Sealed :
      (max_windows : ℕ) (s : PartitionState) (offset : ℕ) (wiki title : String) (time : ℕ)
      → Sealed lateness_ms s k
      → Sealed lateness_ms (add_to lateness_ms max_windows s offset wiki title time).0 k
  unfolding add_to enforce_cap
  add_to-Sealed max_windows s offset wiki title time h =
      let seen = observe s offset time in
      let key = key_of wiki title time in
      let h' = observe-Sealed s offset time h in
      elim (Bool-cases (too_late lateness_ms seen key)) [
        | inl q ↦ rw q h'
        | inr q ↦ rw q (
            cap_rounds-Sealed max_windows _ (put_edit seen key offset)
              (put_edit-Sealed seen key offset q h'))
      ]

  -- A window that the cap forces out while it counts an edit is sealed.
  pub enforce_cap_seals :
      (max_windows : ℕ) (s : PartitionState) (w : Window)
      → Dict.get s.windows k ≡ some w
      → Dict.get (enforce_cap max_windows s).windows k ≡ none
      → Sealed lateness_ms (enforce_cap max_windows s) k
  unfolding enforce_cap
  enforce_cap_seals max_windows s = cap_rounds_seals max_windows (length s.windows) s
