-- ===== src/PageState/Steps.antt =====
-- processors/page_state.py: what one handled message does to the guards and to the output partition.
use wikistream_kafka.Prelude.{
  ℕ, ◌+◌, ◌≡◌, refl, ap, ◌∙◌, subst, inl, inr, String, false, Option, none, some, List, [], ◌∷◌,
  arith, nat_eq, string_eq, Bool-cases, Option-cases,
}
use mathlib.Core.Option.{some-injective}
use wikistream_kafka.Dict
use wikistream_kafka.Dict.{Dict, get-put, get-put_self, get-remove}
use wikistream_kafka.PageLatest.{Wire, PageLatest, IsSound, page_update, from_event}
use wikistream_kafka.Models.{CleanEvent}
use wikistream_kafka.PageState.{
  remember, is_stale, Produced, Message, PageState, count_write, value_of, apply_update, handle,
}
use wikistream_kafka.PageState.Guard.{IsTimed, value_of-IsTimed}

-- What one handled message does to the guards and to the output partition.
pub data Step (w : Wire) (guards : Dict ℕ (Dict String ℕ)) (p : ℕ)
    : Dict ℕ (Dict String ℕ) → List Produced → Type 0 where
  unchanged : Step w guards p guards []
  skipped :
      (d : Dict String ℕ) → Dict.get guards p ≡ some d → Step w guards p (Dict.put guards p d) []
  written :
      (d : Dict String ℕ)
      → Dict.get guards p ≡ some d
      → (r : Produced) → IsTimed w r
      → is_stale d r.key r.timestamp ≡ false
      → Step w guards p (Dict.put guards p (remember d r.key r.timestamp)) (r ∷ [])

applied-count_write :
    (s : PageState) (latest : Option PageLatest) → (count_write s latest).applied ≡ s.applied
unfolding count_write
applied-count_write s none = refl
applied-count_write s (some r) = refl

page_update-time :
    (w : Wire) (e : CleanEvent) (key : String) (latest : Option PageLatest) (r : PageLatest)
    → page_update w e ≡ some (key, latest)
    → latest ≡ some r
    → r.event_time ≡ e.event_time
unfolding page_update from_event
page_update-time w e key latest r q h = ground arith

module _ (w : Wire) (sound : IsSound w) where
  apply_update-Step :
      (s : PageState) (p : ℕ) (key : String) (latest : Option PageLatest) (t : ℕ)
      (d : Dict String ℕ)
      → ((r : PageLatest) → latest ≡ some r → w.event_ms r.event_time ≡ some t)
      → Dict.get s.applied p ≡ some d
      → Step w s.applied p
          (apply_update w s p key latest t).0.applied
          (apply_update w s p key latest t).1
  unfolding apply_update count_write Dict.get_or
  apply_update-Step s p key latest t d time got = elim (Bool-cases (is_stale d key t)) [
    | inl q ↦ rw (apply_update, Dict.get_or, got, q) (skipped d got)
    | inr q ↦
        rw (apply_update, Dict.get_or, got, q, applied-count_write)
          (written d got (record { key = key; value = value_of w latest; timestamp = t })
            (value_of-IsTimed w sound latest t time) q)
  ]

  of_result :
      (s : PageState) (p : ℕ) (x y : PageState × List Produced)
      → Step w s.applied p x.0.applied x.1
      → ◌≡◌ {A = Option (PageState × List Produced)} (some x) (some y)
      → Step w s.applied p y.0.applied y.1
  of_result s p x y step e =
      subst (λ (z : PageState × List Produced). Step w s.applied p z.0.applied z.1)
        (some-injective x y e) step

  pub handle-Step :
      (s : PageState) (m : Message) (y : PageState × List Produced) (d : Dict String ℕ)
      → Dict.get s.applied m.partition ≡ some d
      → handle w s m ≡ some y
      → Step w s.applied m.partition y.0.applied y.1
  unfolding handle
  handle-Step s m y d got run = elim (Option-cases (w.clean_from_json m.value)) [
    | inl q ↦
        of_result s m.partition (record s { errors = s.errors + 1 }, []) y unchanged (ground arith)
    | inr (e, q) ↦ elim (Option-cases (page_update w e)) [
      | inl r ↦
          of_result s m.partition (record s { ignored = s.ignored + 1 }, []) y unchanged
            (ground arith)
      | inr ((key, latest), r) ↦ elim (Option-cases (w.event_ms e.event_time)) [
        | inl u ↦ absurd (ground arith)
        | inr (t, u) ↦
            of_result s m.partition (apply_update w s m.partition key latest t) y
              (apply_update-Step s m.partition key latest t d
                (λ l h. ap w.event_ms (page_update-time w e key latest l r h) ∙ u) got)
              (ground arith)
      ]
    ]
  ]
