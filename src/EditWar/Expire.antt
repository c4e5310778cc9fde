-- ===== src/EditWar/Expire.antt =====
-- processors/edit_war_detector.py: forgetting quiet pages does not change what is detected.
use wikistream_kafka.Prelude.{
  ℕ, ◌-◌, ◌≤◌, ◌<◌, ◌≡◌, refl, inl, inr, String, true, false, none, some, List, [], ◌∷◌, ◌++◌,
  arith, string_eq, ltb, if◌then◌else◌, All, All-map, contains, Bool-cases, Option-cases, ltb→lt,
  ◌==◌,
}
use wikistream_kafka.Dict
use wikistream_kafka.Dict.{Dict, Distinct, All-get}
use wikistream_kafka.Dict.Bulk.{get-delete_all}
use wikistream_kafka.Models.{CleanEvent, page_key}
use wikistream_kafka.EditWar.{
  Runtime, Revert, PageState, new_page, EditWarDetector, evict, last, is_stale, stale_keys, expire,
  alerted_at, observe_page, ignored, observe,
}
use wikistream_kafka.EditWar.Order.{Ordered, UpTo, IsCurrent}
use wikistream_kafka.EditWar.Alerts.{InOrder, observe_alert}

contains-stale_keys :
    (w now : ℕ) (d : Dict String PageState) (k : String)
    → Distinct d
    → contains (stale_keys w now d) k
      ≡ elim (Dict.get d k) [ none ↦ false | some s ↦ is_stale w now s ]
unfolding stale_keys contains Dict.get
contains-stale_keys w now [] k u = refl
contains-stale_keys w now ((j, s) ∷ d) k u = elim (Bool-cases (j == k)) [
  | inl q ↦
      let same : Dict.get d k ≡ none = ground (arith, u.0, string_eq.same_iff j k) in
      elim (Bool-cases (is_stale w now s)) [
        | inl old ↦ rw (q, old) (ground (arith, q, old))
        | inr new ↦ rw (q, new) (ground (arith, q, new, same, contains-stale_keys w now d k u.1))
      ]
  | inr q ↦ elim (Bool-cases (is_stale w now s)) [
    | inl old ↦ rw (q, old) (ground (arith, q, old, contains-stale_keys w now d k u.1))
    | inr new ↦ rw (q, new) (ground (arith, q, new, contains-stale_keys w now d k u.1))
  ]
]

-- In a page in order, no revert is later than the last.
last-latest :
    (r : Revert) (rest : List Revert) → Ordered (r ∷ rest) → UpTo (last r rest).time_ms (r ∷ rest)
unfolding last
last-latest r [] o = (omega arith, tt)
last-latest r (x ∷ rest) o = let h = last-latest x rest o.1 in (omega (arith, o.0.0, h.0), h)

-- Reverts that are all older than the window are evicted.
evict_old :
    (w now : ℕ) (rs : List Revert) (latest : Revert)
    → All (λ r. r.time_ms < now - w) rs
    → evict w now (rs ++ latest ∷ []) ≡ evict w now (latest ∷ [])
unfolding evict
evict_old w now [] latest h = refl
evict_old w now (r ∷ rs) latest h = ground (arith, h.0, evict_old w now rs latest h.1)

stale_reverts :
    (w watermark t : ℕ) (s : PageState)
    → IsCurrent watermark s
    → is_stale w watermark s ≡ true
    → watermark ≤ t
    → All (λ r. r.time_ms < t - w) s.reverts
stale_reverts w watermark t s h old le = old_ones s.reverts h.ordered (ground arith)
  where
    old_ones :
        (rs : List Revert)
        → Ordered rs
        → (elim rs [ [] ↦ true | r ∷ rest ↦ ltb (last r rest).time_ms (watermark - w) ]) ≡ true
        → All (λ r. r.time_ms < t - w) rs
    old_ones [] o e = tt
    old_ones (r ∷ rest) o e =
        let lt = ltb→lt (last r rest).time_ms (watermark - w) e in
        All-map (λ x. x.time_ms ≤ (last r rest).time_ms) (λ x. x.time_ms < t - w) (r ∷ rest)
          (λ x m. omega arith) (last-latest r rest o)

module _ (rt : Runtime) (d : EditWarDetector) (e : CleanEvent) (t : ℕ) where
  observe_page_stale :
      (s : PageState)
      → IsCurrent d.watermark_ms s
      → is_stale d.window_ms d.watermark_ms s ≡ true
      → d.watermark_ms ≤ t
      → (observe_page rt d new_page e t).1 ≡ (observe_page rt d s e t).1
  unfolding observe_page
  observe_page_stale s h old le =
      let latest : Revert = record { event_id = e.event_id; user = e.user; time_ms = t } in
      let gone =
        evict_old d.window_ms t s.reverts latest
          (stale_reverts d.window_ms d.watermark_ms t s h old le) in
      let silent : alerted_at s t ≡ false = ground arith in rw (gone, silent) (ground arith)

  same_settings : (s : PageState) → observe_page rt (expire d).0 s e t ≡ observe_page rt d s e t
  unfolding expire observe_page
  same_settings s = refl

  -- The page after `expire`: what it was, or a new one in place of a stale one.
  page_after :
      (s : PageState)
      → Distinct d.pages
      → Dict.get d.pages (page_key e) ≡ some s
      → Dict.get_or (expire d).0.pages (page_key e) new_page
        ≡ (if is_stale d.window_ms d.watermark_ms s then new_page else s)
  unfolding expire Dict.get_or
  page_after s u q =
      let stale = stale_keys d.window_ms d.watermark_ms d.pages in
      ground (
        arith,
        get-delete_all d.pages stale (page_key e),
        contains-stale_keys d.window_ms d.watermark_ms d.pages (page_key e) u,
        q,
      )

  page_after_none :
      Dict.get d.pages (page_key e) ≡ none
      → Dict.get_or (expire d).0.pages (page_key e) new_page ≡ new_page
  unfolding expire Dict.get_or
  page_after_none q =
      let stale = stale_keys d.window_ms d.watermark_ms d.pages in
      ground (arith, get-delete_all d.pages stale (page_key e), q)

  page_before :
      (s : PageState)
      → Dict.get d.pages (page_key e) ≡ some s
      → Dict.get_or d.pages (page_key e) new_page ≡ s
  unfolding Dict.get_or
  page_before s q = rw (q, Dict.get_or)

  page_before_none :
      Dict.get d.pages (page_key e) ≡ none → Dict.get_or d.pages (page_key e) new_page ≡ new_page
  unfolding Dict.get_or
  page_before_none q = rw (q, Dict.get_or)

  same_page :
      Distinct d.pages
      → InOrder d
      → d.watermark_ms ≤ t
      → (observe_page rt (expire d).0 (Dict.get_or (expire d).0.pages (page_key e) new_page) e t).1
        ≡ (observe_page rt d (Dict.get_or d.pages (page_key e) new_page) e t).1
  same_page u h le = elim (Option-cases (Dict.get d.pages (page_key e))) [
    | inl q ↦ rw (page_after_none q, page_before_none q, same_settings)
    | inr q ↦
        let s = q.0 in
        let current = All-get (λ p. IsCurrent d.watermark_ms p.1) d.pages (page_key e) s h q.1 in
        elim (Bool-cases (is_stale d.window_ms d.watermark_ms s)) [
          | inl old ↦
              rw (page_after s u q.1, page_before s q.1, same_settings, old)
                (observe_page_stale s current old le)
          | inr new ↦ rw (page_after s u q.1, page_before s q.1, same_settings, new)
        ]
  ]

  -- `expire` does not change what the next event raises: on a detector that has seen its events in
  -- order, an event that is not older than those gives the same alert, or the same none, whether
  -- the quiet pages were forgotten just before or not.
  pub expire-observe :
      Distinct d.pages
      → InOrder d
      → d.watermark_ms ≤ t
      → (observe rt (expire d).0 e t).1 ≡ (observe rt d e t).1
  unfolding expire
  expire-observe u h le =
      let left = observe_alert rt (expire d).0 e t in
      let right = observe_alert rt d e t in
      let same = same_page u h le in
      elim (Bool-cases (ignored rt d e)) [
        | inl q ↦ ground (arith, left, right, q)
        | inr q ↦ ground (arith, left, right, q, same)
      ]
