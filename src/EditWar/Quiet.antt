-- ===== src/EditWar/Quiet.antt =====
-- processors/edit_war_detector.py: after an alert the page is quiet while the reverts go on.
use wikistream_kafka.Prelude.{ℕ, ◌+◌, ◌≤◌, ◌≡◌, refl, true, none, some, List, [], ◌∷◌, arith}
use wikistream_kafka.Models.{CleanEvent}
use wikistream_kafka.EditWar.{
  Runtime, EditWarAlert, PageState, EditWarDetector, alerted_at, observe_page,
}

-- Further reverts of one page, each with its time; the alerts that they raise.
unfoldable pub watch :
    Runtime → EditWarDetector → PageState → List (CleanEvent × ℕ) → List EditWarAlert
watch rt d s [] = []
watch rt d s ((e, t) ∷ rest) =
    let (s', alert) = observe_page rt d s e t in
    let others = watch rt d s' rest in elim alert [ none ↦ others | some a ↦ a ∷ others ]

-- Each revert comes no earlier than the one before, and at most `w` after it.
abbrev pub GoesOn : ℕ → ℕ → List (CleanEvent × ℕ) → Type 0
GoesOn w t [] = Unit
GoesOn w t ((e, u) ∷ rest) = (t ≤ u) × (u ≤ t + w) × GoesOn w u rest

watch_alerted :
    (rt : Runtime) (d : EditWarDetector) (s : PageState) (t : ℕ) (events : List (CleanEvent × ℕ))
    → s.alerted_until_ms ≡ some (t + d.window_ms)
    → GoesOn d.window_ms t events
    → watch rt d s events ≡ []
unfolding watch
watch_alerted rt d s t [] a g = refl
watch_alerted rt d s t ((e, u) ∷ rest) a g =
    let silent : alerted_at s u ≡ true = ground arith in
    let no_alert : (observe_page rt d s e u).1 ≡ none =
      unfold observe_page in ground (arith, silent) in
    let until : (observe_page rt d s e u).0.alerted_until_ms ≡ some (u + d.window_ms) =
      unfold observe_page in ground (arith, silent) in
    rw (watch, no_alert) (watch_alerted rt d (observe_page rt d s e u).0 u rest until g.2)

-- A war is reported once: after an alert on a page, reverts of it that come in order raise no other
-- alert as long as none comes later than `window_ms` after the one before.
pub one_alert_per_war :
    (rt : Runtime) (d : EditWarDetector) (s : PageState) (e : CleanEvent) (t : ℕ) (a : EditWarAlert)
    (events : List (CleanEvent × ℕ))
    → (observe_page rt d s e t).1 ≡ some a
    → GoesOn d.window_ms t events
    → watch rt d (observe_page rt d s e t).0 events ≡ []
one_alert_per_war rt d s e t a events raised g =
    let until : (observe_page rt d s e t).0.alerted_until_ms ≡ some (t + d.window_ms) =
      unfold observe_page in ground arith in
    watch_alerted rt d (observe_page rt d s e t).0 t events until g
