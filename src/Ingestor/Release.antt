-- ===== src/Ingestor/Release.antt =====
-- ingestor/main.py, `DeliveryTracker`: nothing is held back without a reason.
use wikistream_kafka.Prelude.{
  ℕ, ◌<◌, ◌≡◌, refl, subst, append-nil, ◌∙◌, inl, inr, true, false, List, [], ◌∷◌, ◌++◌, map, arith,
  nat_eq, contains, All, All-In, In-append_right, Bool-cases,
}
use wikistream_kafka.Ingestor.{Sent, DeliveryTracker}
use wikistream_kafka.Ingestor.Tracker.{Follows, Ascending, Blocked}

-- In an ascending list a number of the rest is not one of the beginning.
not_before :
    (released : List Sent) (s : Sent) (rest : List Sent)
    → Ascending (released ++ s ∷ rest)
    → contains (map (λ (x : Sent). x.0) released) s.0 ≡ false
unfolding contains
not_before [] s rest h = refl
not_before (r ∷ released) s rest h =
    let lt : r.0 < s.0 =
      All-In (λ x. r.0 < x.0) (released ++ s ∷ rest) s h.0
        (In-append_right s released (s ∷ rest) (inl refl)) in
    ground (arith, not_before released s rest h.1)

-- A message is held back for a reason: if its numbers grow, as `_send` makes them, then the oldest
-- message that a tracker still holds is one that was not delivered.
pub held_back :
    (t : DeliveryTracker) (sent released : List Sent) (delivered : List ℕ) (s : Sent)
    (rest : List Sent)
    → Follows t sent released delivered
    → Ascending sent
    → t.pending ≡ s ∷ rest
    → contains delivered s.0 ≡ false
held_back t sent released delivered s rest h up q =
    let split : sent ≡ released ++ s ∷ rest =
      subst (λ (l : List Sent). sent ≡ released ++ l) q h.split in
    let before = not_before released s rest (subst (λ (l : List Sent). Ascending l) split up) in
    let blocked : contains t.confirmed s.0 ≡ false =
      subst (λ (l : List Sent). Blocked t.confirmed l) q h.blocked in
    elim (Bool-cases (contains delivered s.0)) [
      | inl d ↦ absurd (ground (arith, h.kept s.0, d, before, blocked))
      | inr d ↦ d
    ]

-- So when every message that was sent is delivered, in whatever order the confirmations came, none
-- is pending: the checkpoint is behind all of them.
pub all_released :
    (t : DeliveryTracker) (sent released : List Sent) (delivered : List ℕ)
    → Follows t sent released delivered
    → Ascending sent
    → All (λ s. contains delivered s.0 ≡ true) sent
    → (t.pending ≡ []) × (sent ≡ released)
all_released t sent released delivered h up all = by_cases t.pending refl
  where
    by_cases : (l : List Sent) → t.pending ≡ l → (t.pending ≡ []) × (sent ≡ released)
    by_cases [] q =
        (q, subst (λ (l : List Sent). sent ≡ released ++ l) q h.split ∙ append-nil released)
    by_cases (s ∷ rest) q =
        let split : sent ≡ released ++ s ∷ rest =
          subst (λ (l : List Sent). sent ≡ released ++ l) q h.split in
        let missing = held_back t sent released delivered s rest h up q in
        let there : contains delivered s.0 ≡ true =
          All-In (λ x. contains delivered x.0 ≡ true) (released ++ s ∷ rest) s
            (subst (λ (l : List Sent). All (λ x. contains delivered x.0 ≡ true) l) split all)
            (In-append_right s released (s ∷ rest) (inl refl)) in
        absurd (cc (missing, there))
