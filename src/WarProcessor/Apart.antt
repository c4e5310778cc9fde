-- ===== src/WarProcessor/Apart.antt =====
-- processors/edit_war.py: the partitions do not disturb each other, and a warm up is a replay.
use wikistream_kafka.Prelude.{
  ℕ, ◌≡◌, refl, sym, ap, ◌∙◌, inl, inr, Option, none, some, List, [], ◌∷◌, filter, nat_eq, ◌==◌,
  if◌then◌else◌, Bool-cases, Option-cases, same_refl,
}
use wikistream_kafka.Dict
use wikistream_kafka.Dict.{Dict, get-put}
use wikistream_kafka.Transform.{event_time_ms}
use wikistream_kafka.Trending.{Readers, Message}
use wikistream_kafka.EditWar.{Runtime, EditWarAlert, EditWarDetector, default_detector, observe}
use wikistream_kafka.WarProcessor.{
  EditWarProcessor, detector_for, count_alert, observe_in, handle, replay_into, replay, warm,
}

-- Messages one after another, of any partitions.
unfoldable pub handle_all : Runtime → Readers → EditWarProcessor → List Message → EditWarProcessor
handle_all rt r s [] = s
handle_all rt r s (m ∷ messages) = handle_all rt r (handle rt r s m).0 messages

-- the messages of one partition
abbrev pub only : ℕ → List Message → List Message
only p = filter (λ m. m.partition == p)

detectors-count_alert :
    (s : EditWarProcessor) (alert : Option EditWarAlert)
    → (count_alert s alert).0.detectors ≡ s.detectors
detectors-count_alert s none = refl
detectors-count_alert s (some alert) = refl

detector_for-put :
    (s s' : EditWarProcessor) (p q : ℕ) (d : EditWarDetector)
    → s'.detectors ≡ Dict.put s.detectors p d
    → detector_for s' q ≡ (if p == q then d else detector_for s q)
unfolding detector_for Dict.get_or
detector_for-put s s' p q d h = elim (Bool-cases (p == q)) [
  | inl e ↦ rw (detector_for, Dict.get_or, h, get-put s.detectors p q d, e) refl
  | inr n ↦ rw (detector_for, Dict.get_or, h, get-put s.detectors p q d, n) refl
]

detector_for-fresh :
    (s : EditWarProcessor) (q : ℕ) → s.detectors ≡ [] → detector_for s q ≡ default_detector
unfolding detector_for Dict.get_or Dict.get
detector_for-fresh s q h = rw (detector_for, Dict.get_or, h) refl

-- A message moves the detector of its own partition only.
detector_for-handle :
    (rt : Runtime) (r : Readers) (s : EditWarProcessor) (m : Message) (q : ℕ)
    → detector_for (handle rt r s m).0 q
      ≡ (if m.partition == q then (replay_into rt r (detector_for s q) m).0 else detector_for s q)
unfolding handle replay_into observe_in detector_for
detector_for-handle rt r s m q = elim (Option-cases (r.from_json m.value)) [
  | inl n ↦ elim (Bool-cases (m.partition == q)) [
    | inl e ↦ rw (handle, replay_into, n, e) refl
    | inr f ↦ rw (handle, replay_into, n, f) refl
  ]
  | inr (e, n) ↦
      let p = m.partition in
      let at = event_time_ms r.event_ms e (some m.timestamp) in
      let d = (observe rt (detector_for s p) e at).0 in
      let moved =
        detector_for-put s (observe_in rt s p e at).0 p q d
          (detectors-count_alert _ (observe rt (detector_for s p) e at).1) in
      elim (Bool-cases (p == q)) [
        | inl same ↦
            let here : p ≡ q = (nat_eq.same_iff p q).0 same in
            rw (handle, replay_into, n, same)
              (moved ∙ rw same (ap (λ (x : ℕ). (observe rt (detector_for s x) e at).0) here))
        | inr other ↦ rw (handle, replay_into, n, other) (moved ∙ rw other refl)
      ]
]

-- Whatever messages of whatever partitions are handled, in whatever interleaving, the detector of
-- a partition is what the messages of that partition alone make of the detector it had: partitions
-- do not disturb each other.
pub detector_for-handle_all :
    (rt : Runtime) (r : Readers) (s : EditWarProcessor) (messages : List Message) (q : ℕ)
    → detector_for (handle_all rt r s messages) q ≡ replay rt r (detector_for s q) (only q messages)
unfolding handle_all replay filter
detector_for-handle_all rt r s [] q = refl
detector_for-handle_all rt r s (m ∷ messages) q =
    let rest = detector_for-handle_all rt r (handle rt r s m).0 messages q in
    let first = detector_for-handle rt r s m q in
    elim (Bool-cases (m.partition == q)) [
      | inl e ↦ rest ∙ rw (first, e) refl
      | inr n ↦ rest ∙ rw (first, n) refl
    ]

-- An instance that takes a partition over and warms its detector from the records before the
-- commit has the detector of an instance that was started new and handled those records itself,
-- among messages of other partitions.
pub detector_for-warm :
    (rt : Runtime) (r : Readers) (s fresh : EditWarProcessor) (messages : List Message) (q : ℕ)
    → fresh.detectors ≡ []
    → detector_for (warm rt r s q (some (only q messages))) q
      ≡ detector_for (handle_all rt r fresh messages) q
unfolding warm
detector_for-warm rt r s fresh messages q empty =
    detector_for-put s (warm rt r s q (some (only q messages))) q q
      (replay rt r default_detector (only q messages)) refl
    ∙ rw (same_refl q) (
        ap (λ (d : EditWarDetector). replay rt r d (only q messages))
          (sym (detector_for-fresh fresh q empty)))
    ∙ sym (detector_for-handle_all rt r fresh messages q)
