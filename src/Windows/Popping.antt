-- ===== src/Windows/Popping.antt =====
-- processors/windows.py: what `pop_closed` returns is closed for good, and was open before.
use wikistream_kafka.Prelude.{
  ℕ, ◌≡◌, refl, ◌∙◌, ◌⊎◌, inl, inr, Bool, some, List, [], ◌∷◌, ◌++◌, arith, nat_eq, Option-cases,
  contains-insert, same_refl, In, In-append,
}
use wikistream_kafka.Dict
use wikistream_kafka.Dict.{get-remove, get-remove_self}
use wikistream_kafka.Windows.{
  WindowKey, key_eq, Window, ClosedWindow, PartitionState, closed_before,
}
use wikistream_kafka.Windows.Close.{closed_window, pop_window, pop_all}
use wikistream_kafka.Windows.Sealing.{Sealed, row_key}

module _ (lateness_ms : ℕ) (final : Bool) (cutoff : ℕ) where
  pop_window-Sealed :
      (k j : WindowKey) (s : PartitionState) (closed : List ClosedWindow)
      → Sealed lateness_ms s k
      → Sealed lateness_ms (pop_window final cutoff j (s, closed)).0 k
  unfolding pop_window closed_before
  pop_window-Sealed k j s closed h = elim (Option-cases (Dict.get s.windows j)) [
    | inl q ↦ rw (q, pop_window) h
    | inr q ↦
        rw (q.1, pop_window)
          (record {
            gone = ground (arith, h.gone, get-remove s.windows j k);
            refused =
                ground (arith, h.refused, contains-insert s.flushed_minutes j.minute k.minute);
          })
  ]

  pub pop_all-Sealed :
      (k : WindowKey) (js : List WindowKey) (s : PartitionState) (closed : List ClosedWindow)
      → Sealed lateness_ms s k
      → Sealed lateness_ms (pop_all final cutoff js (s, closed)).0 k
  unfolding pop_all
  pop_all-Sealed k [] s closed h = h
  pop_all-Sealed k (j ∷ js) s closed h =
      let (s', closed') = pop_window final cutoff j (s, closed) in
      pop_all-Sealed k js s' closed' (pop_window-Sealed k j s closed h)

  pop_window_cutoff :
      (j : WindowKey) (s : PartitionState) (closed : List ClosedWindow)
      → closed_before lateness_ms (pop_window final cutoff j (s, closed)).0
        ≡ closed_before lateness_ms s
  unfolding pop_window closed_before
  pop_window_cutoff j s closed = ground arith

  pub pop_all_cutoff :
      (js : List WindowKey) (s : PartitionState) (closed : List ClosedWindow)
      → closed_before lateness_ms (pop_all final cutoff js (s, closed)).0
        ≡ closed_before lateness_ms s
  unfolding pop_all
  pop_all_cutoff [] s closed = refl
  pop_all_cutoff (j ∷ js) s closed =
      let (s', closed') = pop_window final cutoff j (s, closed) in
      pop_all_cutoff js s' closed' ∙ pop_window_cutoff j s closed

  -- A row: it was in the list before, or it is that of a window that was open and is sealed now.
  abbrev pub Row : PartitionState → PartitionState → ClosedWindow → Type 0
  Row s s' c =
      (w : Window) × (Dict.get s.windows (row_key c) ≡ some w)
      × (c.count ≡ w.count)
      × Sealed lateness_ms s' (row_key c)

  pop_window-Row :
      (c : ClosedWindow) (j : WindowKey) (s : PartitionState) (closed : List ClosedWindow)
      → In c (pop_window final cutoff j (s, closed)).1
      → In c closed ⊎ Row s (pop_window final cutoff j (s, closed)).0 c
  unfolding pop_window closed_before
  pop_window-Row c j s closed i = elim (Option-cases (Dict.get s.windows j)) [
    | inl q ↦ let i' : In c closed = rw (q, pop_window) at i in inl i'
    | inr q ↦
        let i' : In c (closed ++ closed_window j q.0 ∷ []) = rw (q.1, pop_window) at i in
        elim (In-append c closed (closed_window j q.0 ∷ []) i') [
          | inl old ↦ inl old
          | inr (inl new) ↦ inr (
              rw new (
                q.0,
                q.1,
                refl,
                rw (q.1, pop_window)
                    (record {
                      gone = get-remove_self s.windows j;
                      refused = ground (
                        arith,
                        contains-insert s.flushed_minutes j.minute j.minute,
                        same_refl j.minute,
                      );
                    }),
              ))
          | inr (inr no_more) ↦ absurd no_more
        ]
  ]

  still_open :
      (k j : WindowKey) (w : Window) (s : PartitionState) (closed : List ClosedWindow)
      → Dict.get (pop_window final cutoff j (s, closed)).0.windows k ≡ some w
      → Dict.get s.windows k ≡ some w
  unfolding pop_window
  still_open k j w s closed h = ground (arith, get-remove s.windows j k)

  pub pop_all-Row :
      (c : ClosedWindow) (js : List WindowKey) (s : PartitionState) (closed : List ClosedWindow)
      → In c (pop_all final cutoff js (s, closed)).1
      → In c closed ⊎ Row s (pop_all final cutoff js (s, closed)).0 c
  unfolding pop_all
  pop_all-Row c [] s closed i = inl i
  pop_all-Row c (j ∷ js) s closed i =
      let (s', closed') = pop_window final cutoff j (s, closed) in
      elim (pop_all-Row c js s' closed' i) [
        | inl old ↦ elim (pop_window-Row c j s closed old) [
          | inl older ↦ inl older
          | inr (w, g, e, sealed) ↦ inr (w, g, e, pop_all-Sealed (row_key c) js s' closed' sealed)
        ]
        | inr (w, g, e, sealed) ↦ inr (w, still_open (row_key c) j w s closed g, e, sealed)
      ]
