-- ===== src/EditWar/Order.antt =====
-- processors/edit_war_detector.py: a page whose reverts come in the order of their times.
use wikistream_kafka.Prelude.{
  ℕ, suc, ◌+◌, ◌-◌, ◌≤◌, ◌<◌, ◌≡◌, refl, inl, inr, Bool, false, some, List, [], ◌∷◌, ◌++◌, map,
  arith, string_eq, ltb, length, All, All-map, All-append, All-both, subst, Bool-cases, ltb→ge,
  ltb→lt, sym, ap, ◌∙◌, append_assoc,
}
use wikistream_kafka.Models.{CleanEvent}
use wikistream_kafka.EditWar.{
  Runtime, Revert, EditWarAlert, PageState, EditWarDetector, evict, users_of, sorted, insert_sorted,
  revert_le, text_le, alert_of, alerted_at, too_few, observe_page,
}

abbrev pub Ordered : List Revert → Type 0
Ordered [] = Unit
Ordered (r ∷ rest) = All (λ x. r.time_ms ≤ x.time_ms) rest × Ordered rest

abbrev pub UpTo : ℕ → List Revert → Type 0
UpTo t reverts = All (λ r. r.time_ms ≤ t) reverts

append-Ordered :
    (rs : List Revert) (r : Revert) → Ordered rs → UpTo r.time_ms rs → Ordered (rs ++ r ∷ [])
append-Ordered [] r o u = (tt, tt)
append-Ordered (x ∷ rs) r o u =
    (All-append (λ y. x.time_ms ≤ y.time_ms) rs (r ∷ []) o.0 (u.0, tt), append-Ordered rs r o.1 u.1)

-- `evict` drops a prefix: of a page in order, exactly what is older than the window.
evict-All : (P : Revert → Type 0) (w now : ℕ) (rs : List Revert) → All P rs → All P (evict w now rs)
unfolding evict
evict-All P w now [] h = tt
evict-All P w now (r ∷ rs) h = elim (Bool-cases (ltb r.time_ms (now - w))) [
  | inl q ↦ rw q (evict-All P w now rs h.1)
  | inr q ↦ rw q h
]

evict-Ordered : (w now : ℕ) (rs : List Revert) → Ordered rs → Ordered (evict w now rs)
unfolding evict
evict-Ordered w now [] h = tt
evict-Ordered w now (r ∷ rs) h = elim (Bool-cases (ltb r.time_ms (now - w))) [
  | inl q ↦ rw q (evict-Ordered w now rs h.1)
  | inr q ↦ rw q h
]

pub evict_in_window :
    (w now : ℕ) (rs : List Revert) → Ordered rs → All (λ r. now ≤ r.time_ms + w) (evict w now rs)
unfolding evict
evict_in_window w now [] h = tt
evict_in_window w now (r ∷ rs) h = elim (Bool-cases (ltb r.time_ms (now - w))) [
  | inl q ↦ rw q (evict_in_window w now rs h.1)
  | inr q ↦
      let le = ltb→ge r.time_ms (now - w) q in
      rw q (
        omega arith,
        All-map (λ x. r.time_ms ≤ x.time_ms) (λ x. now ≤ x.time_ms + w) rs (λ x m. omega arith) h.0,
      )
]

length-insert_sorted :
    {A : Type 0} (le : A → A → Bool) (x : A) (xs : List A)
    → length (insert_sorted le x xs) ≡ suc (length xs)
unfolding insert_sorted
length-insert_sorted le x [] = refl
length-insert_sorted le x (y ∷ ys) = ground (arith, length-insert_sorted le x ys)

length-sorted : {A : Type 0} (le : A → A → Bool) (xs : List A) → length (sorted le xs) ≡ length xs
unfolding sorted
length-sorted le [] = refl
length-sorted le (x ∷ xs) =
    omega (arith, length-insert_sorted le x (sorted le xs), length-sorted le xs)

-- A page as it is after events up to time `t` that came in order.
pub record IsCurrent (t : ℕ) (s : PageState) : Type 0 where
  pub ordered : Ordered s.reverts
  pub past : UpTo t s.reverts

-- A list of reverts is the end of `recorded`, and what it leaves out is older than the window.
pub record IsTail (window_ms t : ℕ) (recorded reverts : List Revert) : Type 0 where
  pub older : List Revert
  pub split : older ++ reverts ≡ recorded
  pub expired : All (λ r. r.time_ms + window_ms < t) older

evict-IsTail : (w now : ℕ) (rs : List Revert) → IsTail w now rs (evict w now rs)
unfolding evict
evict-IsTail w now [] = record { older = []; split = refl; expired = tt }
evict-IsTail w now (r ∷ rs) = elim (Bool-cases (ltb r.time_ms (now - w))) [
  | inl q ↦
      let rest = evict-IsTail w now rs in
      let lt = ltb→lt r.time_ms (now - w) q in
      rw q (record {
        older = r ∷ rest.older;
        split = ap (λ (x : List Revert). r ∷ x) rest.split;
        expired = (omega arith, rest.expired);
      })
  | inr q ↦ rw q (record { older = []; split = refl; expired = tt })
]

-- What is evicted from the end of a list with one more revert.
IsTail-evict :
    (w t u : ℕ) (recorded reverts : List Revert) (r : Revert)
    → t ≤ u
    → IsTail w t recorded reverts
    → IsTail w u (recorded ++ r ∷ []) (evict w u (reverts ++ r ∷ []))
IsTail-evict w t u recorded reverts r le h =
    let e = evict-IsTail w u (reverts ++ r ∷ []) in
    record {
      older = h.older ++ e.older;
      split =
          append_assoc h.older e.older (evict w u (reverts ++ r ∷ []))
          ∙ ap (λ (x : List Revert). h.older ++ x) e.split
          ∙ sym (append_assoc h.older reverts (r ∷ []))
          ∙ ap (λ (x : List Revert). x ++ r ∷ []) h.split;
      expired =
          All-append (λ x. x.time_ms + w < u) h.older e.older
            (All-map (λ x. x.time_ms + w < t) (λ x. x.time_ms + w < u) h.older (λ x m. omega arith)
              h.expired)
            e.expired;
    }

pub IsTail-later :
    (w t u : ℕ) (recorded reverts : List Revert)
    → t ≤ u
    → IsTail w t recorded reverts
    → IsTail w u recorded reverts
IsTail-later w t u recorded reverts le h = record {
  older = h.older;
  split = h.split;
  expired =
      All-map (λ x. x.time_ms + w < t) (λ x. x.time_ms + w < u) h.older (λ x m. omega arith)
        h.expired;
}

-- Why an alert was raised at time `t`: of the reverts recorded of the page, it counts those that are
-- not older than the window, and they are enough by enough people.
pub record IsJustified (d : EditWarDetector) (e : CleanEvent) (t : ℕ) (recorded : List Revert)
    (a : EditWarAlert) : Type 0 where
  pub reverts : List Revert
  pub tail : IsTail d.window_ms t recorded reverts
  pub inside : All (λ r. (t ≤ r.time_ms + d.window_ms) × (r.time_ms ≤ t)) reverts
  pub enough : d.min_reverts ≤ length reverts
  pub several : d.min_users ≤ length (users_of reverts)
  pub count : a.revert_count ≡ length reverts
  pub people : a.users ≡ sorted text_le (users_of reverts)
  pub events : a.event_ids ≡ map (λ (r : Revert). r.event_id) (sorted revert_le reverts)
  pub page : (a.wiki ≡ e.wiki) × (a.title ≡ e.title)

abbrev pub revert_of : CleanEvent → ℕ → Revert
revert_of e t = record { event_id = e.event_id; user = e.user; time_ms = t }

module _ (rt : Runtime) (d : EditWarDetector) (s : PageState) (e : CleanEvent) (t : ℕ) where
  abbrev kept : List Revert
  kept =
      evict d.window_ms t
        (s.reverts ++ record { event_id = e.event_id; user = e.user; time_ms = t } ∷ [])

  kept-Ordered : IsCurrent t s → Ordered kept × UpTo t kept
  kept-Ordered h =
      let latest : Revert = record { event_id = e.event_id; user = e.user; time_ms = t } in
      (
        evict-Ordered d.window_ms t (s.reverts ++ latest ∷ [])
            (append-Ordered s.reverts latest h.ordered h.past),
        evict-All (λ r. r.time_ms ≤ t) d.window_ms t (s.reverts ++ latest ∷ [])
            (All-append (λ r. r.time_ms ≤ t) s.reverts (latest ∷ []) h.past (omega arith, tt)),
      )

  observe_page_reverts : (observe_page rt d s e t).0.reverts ≡ kept
  unfolding observe_page
  observe_page_reverts = ground arith

  pub observe_page-IsCurrent : IsCurrent t s → IsCurrent t (observe_page rt d s e t).0
  observe_page-IsCurrent h =
      let (o, u) = kept-Ordered h in
      record { ordered = rw observe_page_reverts o; past = rw observe_page_reverts u }

  pub observe_page-IsTail :
      (before : ℕ) (recorded : List Revert)
      → before ≤ t
      → IsTail d.window_ms before recorded s.reverts
      → IsTail d.window_ms t (recorded ++ revert_of e t ∷ []) (observe_page rt d s e t).0.reverts
  observe_page-IsTail before recorded le h =
      rw observe_page_reverts
        (IsTail-evict d.window_ms before t recorded s.reverts (revert_of e t) le h)

  alert_of-IsJustified :
      (recorded : List Revert)
      → IsCurrent t s
      → IsTail d.window_ms t recorded kept
      → too_few d kept ≡ false
      → IsJustified d e t recorded (alert_of rt e (revert_of e t) kept)
  unfolding alert_of
  alert_of-IsJustified recorded h tail many =
      let latest : Revert = record { event_id = e.event_id; user = e.user; time_ms = t } in
      let (o, u) = kept-Ordered h in
      let w =
        evict_in_window d.window_ms t (s.reverts ++ latest ∷ [])
          (append-Ordered s.reverts latest h.ordered h.past) in
      record {
        reverts = kept;
        tail = tail;
        inside = All-both (λ r. t ≤ r.time_ms + d.window_ms) (λ r. r.time_ms ≤ t) kept w u;
        enough = ground arith;
        several = ground arith;
        count = length-sorted revert_le kept;
        people = refl;
        events = refl;
        page = (refl, refl);
      }

  pub observe_page-IsJustified :
      (a : EditWarAlert) (before : ℕ) (recorded : List Revert)
      → IsCurrent t s
      → before ≤ t
      → IsTail d.window_ms before recorded s.reverts
      → (observe_page rt d s e t).1 ≡ some a
      → IsJustified d e t (recorded ++ revert_of e t ∷ []) a
  unfolding observe_page
  observe_page-IsJustified a before recorded h le tail raised = elim (Bool-cases (alerted_at s t)) [
    | inl q ↦ absurd (ground arith)
    | inr q ↦ elim (Bool-cases (too_few d kept)) [
      | inl few ↦ absurd (ground arith)
      | inr many ↦
          let latest = revert_of e t in
          let same : alert_of rt e latest kept ≡ a = ground (arith, raised, q, many) in
          subst (λ (x : EditWarAlert). IsJustified d e t (recorded ++ latest ∷ []) x) same
            (alert_of-IsJustified (recorded ++ latest ∷ []) h
              (IsTail-evict d.window_ms before t recorded s.reverts latest le tail) many)
    ]
  ]
