-- ===== src/EditWar/Alerts.antt =====
-- processors/edit_war_detector.py: which alerts a detector raises on events that come in order.
use wikistream_kafka.Prelude.{
  ℕ, ◌≤◌, ◌≡◌, inl, inr, max, String, false, none, some, arith, string_eq, if◌then◌else◌, All,
  All-map, Bool-cases, Option-cases, Bool, not, ◌&&◌, ◌==◌, List, [], ◌∷◌, ◌++◌, refl, subst,
}
use wikistream_kafka.Dict
use wikistream_kafka.Dict.{Dict, All-put, All-get, get-put}
use wikistream_kafka.Models.{CleanEvent, page_key}
use wikistream_kafka.EditWar.{
  Runtime, EditWarAlert, PageState, new_page, EditWarDetector, Revert, edit_war_detector,
  observe_page, ignored, observe,
}
use wikistream_kafka.EditWar.Order.{
  IsCurrent, IsTail, IsTail-later, IsJustified, revert_of, observe_page-IsCurrent,
  observe_page-IsTail, observe_page-IsJustified,
}

-- Every page of the detector is in order, up to the watermark.
abbrev pub InOrder : EditWarDetector → Type 0
InOrder d = All (λ p. IsCurrent d.watermark_ms p.1) d.pages

IsCurrent-later : (t u : ℕ) (s : PageState) → t ≤ u → IsCurrent t s → IsCurrent u s
IsCurrent-later t u s le h = record {
  ordered = h.ordered;
  past = All-map (λ r. r.time_ms ≤ t) (λ r. r.time_ms ≤ u) s.reverts (λ r m. omega arith) h.past;
}

page-IsCurrent :
    (d : EditWarDetector) (key : String) (t : ℕ)
    → InOrder d
    → d.watermark_ms ≤ t
    → IsCurrent t (Dict.get_or d.pages key new_page)
unfolding Dict.get_or
page-IsCurrent d key t h le = elim (Option-cases (Dict.get d.pages key)) [
  | inl q ↦ rw (q, Dict.get_or) (record { ordered = tt; past = tt })
  | inr q ↦
      rw (q.1, Dict.get_or)
        (IsCurrent-later d.watermark_ms t q.0 le
          (All-get (λ p. IsCurrent d.watermark_ms p.1) d.pages key q.0 h q.1))
]

module _ (rt : Runtime) (d : EditWarDetector) (e : CleanEvent) (t : ℕ) where
  abbrev pub page : PageState
  page = Dict.get_or d.pages (page_key e) new_page

  observe_watermark : (observe rt d e t).0.watermark_ms ≡ max d.watermark_ms t
  unfolding observe
  observe_watermark = ground arith

  observe_pages : (observe rt d e t).0.pages ≡ (
      if ignored rt d e
      then d.pages
      else Dict.put d.pages (page_key e) (observe_page rt d page e t).0)
  unfolding observe
  observe_pages = ground arith

  pub observe_alert :
      (observe rt d e t).1 ≡ (if ignored rt d e then none else (observe_page rt d page e t).1)
  unfolding observe
  observe_alert = ground arith

  -- A detector that has seen its events in order, and is given one more that is not older, stays so.
  pub observe-InOrder : InOrder d → d.watermark_ms ≤ t → InOrder (observe rt d e t).0
  observe-InOrder h le =
      let P : String × PageState → Type 0 = λ p. IsCurrent t p.1 in
      let time : (observe rt d e t).0.watermark_ms ≡ t = omega (arith, observe_watermark) in
      let old =
        All-map (λ p. IsCurrent d.watermark_ms p.1) P d.pages
          (λ p m. IsCurrent-later d.watermark_ms t p.1 le m) h in
      elim (Bool-cases (ignored rt d e)) [
        | inl q ↦ rw (observe_pages, time, q) old
        | inr q ↦
            rw (observe_pages, time, q)
              (All-put P d.pages (page_key e) (observe_page rt d page e t).0 old
                (observe_page-IsCurrent rt d page e t (page-IsCurrent d (page_key e) t h le)))
      ]

  observe_window : (observe rt d e t).0.window_ms ≡ d.window_ms
  unfolding observe
  observe_window = ground arith

  -- the reverts recorded of each page, after one more event
  abbrev pub recorded_after : (String → List Revert) → String → List Revert
  recorded_after recorded key =
      if not (ignored rt d e) && page_key e == key
      then recorded key ++ revert_of e t ∷ []
      else recorded key

-- A detector that has observed events in the order of their times, with the reverts of each page
-- that it counted, each once.
pub data Seen (rt : Runtime) : EditWarDetector → (String → List Revert) → Type 0 where
  fresh :
      (window_ms min_reverts min_users : ℕ) (ignore_bots : Bool)
      → Seen rt (edit_war_detector window_ms min_reverts min_users ignore_bots) (λ key. [])
  observed :
      {d : EditWarDetector} {recorded : String → List Revert}
      → Seen rt d recorded
      → (e : CleanEvent) (t : ℕ) → d.watermark_ms ≤ t
      → Seen rt (observe rt d e t).0 (recorded_after rt d e t recorded)

Seen-InOrder :
    {rt : Runtime} {d : EditWarDetector} {recorded : String → List Revert}
    → Seen rt d recorded
    → InOrder d
Seen-InOrder (fresh window_ms min_reverts min_users ignore_bots) = tt
Seen-InOrder {rt} (observed {d} r e t le) = observe-InOrder rt d e t (Seen-InOrder r) le

get_or-put :
    (pages : Dict String PageState) (own key : String) (s : PageState)
    → Dict.get_or (Dict.put pages own s) key new_page
      ≡ (if own == key then s else Dict.get_or pages key new_page)
unfolding Dict.get_or
get_or-put pages own key s = elim (Bool-cases (own == key)) [
  | inl q ↦ rw (Dict.get_or, get-put pages own key s, q) refl
  | inr q ↦ rw (Dict.get_or, get-put pages own key s, q) refl
]

-- The reverts that a page holds are the end of those recorded.
Seen-IsTail :
    {rt : Runtime} {d : EditWarDetector} {recorded : String → List Revert}
    → Seen rt d recorded
    → (key : String)
    → IsTail d.window_ms d.watermark_ms (recorded key) (Dict.get_or d.pages key new_page).reverts
unfolding Dict.get_or Dict.get
Seen-IsTail (fresh window_ms min_reverts min_users ignore_bots) key = record {
  older = [];
  split = refl;
  expired = tt;
}
Seen-IsTail {rt} (observed {d} {recorded} r e t le) key =
    let time : (observe rt d e t).0.watermark_ms ≡ t = omega (arith, observe_watermark rt d e t) in
    let before = Seen-IsTail r key in
    let later =
      IsTail-later d.window_ms d.watermark_ms t (recorded key)
        (Dict.get_or d.pages key new_page).reverts le before in
    elim (Bool-cases (ignored rt d e)) [
      | inl q ↦ rw (observe_pages rt d e t, time, observe_window rt d e t, q) later
      | inr q ↦ elim (Bool-cases (page_key e == key)) [
        | inl own ↦
            rw
              (
                observe_pages rt d e t,
                time,
                observe_window rt d e t,
                q,
                get_or-put d.pages (page_key e) key (observe_page rt d (page rt d e t) e t).0,
                own,
              )
              (subst
                (λ (k : String).
                  IsTail d.window_ms t (recorded k ++ revert_of e t ∷ [])
                    (observe_page rt d (page rt d e t) e t).0.reverts)
                ((string_eq.same_iff (page_key e) key).0 own)
                (observe_page-IsTail rt d (page rt d e t) e t d.watermark_ms (recorded (page_key e))
                  le (Seen-IsTail r (page_key e))))
        | inr other ↦
            rw
              (
                observe_pages rt d e t,
                time,
                observe_window rt d e t,
                q,
                get_or-put d.pages (page_key e) key (observe_page rt d (page rt d e t) e t).0,
                other,
              )
              later
      ]
    ]

module _ (rt : Runtime) (d : EditWarDetector) (e : CleanEvent) (t : ℕ) where
  -- If a detector, from its start, has observed events in the order of their times, an alert for an
  -- event that is not older than those is justified: the event is a revert that is not ignored as a
  -- bot's; and among the reverts of the page that were observed, this one included, those that are
  -- not older than the window are at least `min_reverts`, by at least `min_users` people. The alert
  -- lists exactly these reverts, with their number and their people.
  pub observe-IsJustified :
      (a : EditWarAlert) (recorded : String → List Revert)
      → Seen rt d recorded
      → d.watermark_ms ≤ t
      → (observe rt d e t).1 ≡ some a
      → (ignored rt d e ≡ false) × IsJustified d e t (recorded (page_key e) ++ revert_of e t ∷ []) a
  observe-IsJustified a recorded seen le raised = elim (Bool-cases (ignored rt d e)) [
    | inl q ↦ absurd (ground (arith, observe_alert rt d e t))
    | inr q ↦ (
      q,
      observe_page-IsJustified rt d (page rt d e t) e t a d.watermark_ms (recorded (page_key e))
          (page-IsCurrent d (page_key e) t (Seen-InOrder seen) le) le
          (Seen-IsTail seen (page_key e)) (ground (arith, observe_alert rt d e t)),
    )
  ]
