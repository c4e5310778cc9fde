-- ===== src/Ingestor/Kept.antt =====
-- ingestor/main.py: no event of the stream is skipped while the ingestor keeps running.
use wikistream_kafka.Prelude.{
  ℕ, ◌+◌, ◌≡◌, refl, ap, ◌∙◌, sym, String, Bool, true, false, Option, none, some, List, [], ◌∷◌,
  ◌++◌, map, if◌then◌else◌, string_eq, ◌==◌, Bool-cases, inl, inr, arith,
}
use wikistream_kafka.Parsing.{Library, Parsed, parsed, refused, raised, Fields, Reason}
use wikistream_kafka.Sse.{SseEvent}
use wikistream_kafka.Ingestor.Process.{
  Ingestor, stop, Delivery, delivered, delivery_failed, maybe_save, on_delivery, serve, Attempt,
  accepted, full, since as start_of, give_up, send_loop, send,
}
use wikistream_kafka.Ingestor.Resume.{sent_after}
use wikistream_kafka.Ingestor.Handle.{
  Writer, Letter, Decision, ignored, letter, raises, dlq_letter, decide, choose, refuse, encodes,
  mark_refused, Handled, dropped, sent_to, failed, post, handle, read_event,
}
use wikistream_kafka.Ingestor.Loop.{Turn, after_turn}
use wikistream_kafka.Ingestor.Reading.{sent_by, sent_by-seq, seq-mark_refused}

-- The ids of the events to keep: all but those that are named "error".
unfoldable pub ids_of : SseEvent → List (Option String)
ids_of e = if e.event == "error" then [] else e.event_id ∷ []

unfoldable pub stream_ids : List Turn → List (Option String)
stream_ids [] = []
stream_ids (t ∷ turns) = ids_of t.event ++ stream_ids turns

-- Nothing starts an ingestor that is to stop.
running-on_delivery :
    (g : Ingestor) (d : Delivery) → g.running ≡ false → (on_delivery g d).running ≡ false
unfolding on_delivery delivered delivery_failed maybe_save
running-on_delivery g d h = ground arith

running-serve :
    (callbacks : List Delivery) (g : Ingestor)
    → g.running ≡ false
    → (serve g callbacks).running ≡ false
unfolding serve
running-serve [] g h = h
running-serve (d ∷ rest) g h = running-serve rest (on_delivery g d) (running-on_delivery g d h)

running-after_turn :
    (g : Ingestor) (t : Turn) → g.running ≡ false → (after_turn g t).running ≡ false
unfolding stop
running-after_turn g t h = ground (arith, running-serve t.callbacks g)

-- A message that `_send` gives up stops the ingestor.
running-send_loop :
    (attempts : List Attempt) (g : Ingestor) (seq : ℕ) (stream_id : Option String)
    (since : Option ℕ)
    → (send_loop g seq stream_id since attempts).1 ≡ some false
    → (send_loop g seq stream_id since attempts).0.running ≡ false
unfolding send_loop give_up
running-send_loop [] g seq stream_id since h = absurd (ground arith)
running-send_loop (accepted ∷ rest) g seq stream_id since h = absurd (ground arith)
running-send_loop (full now callbacks ∷ rest) g seq stream_id since h =
    ground
      (arith, running-send_loop rest (serve g callbacks) seq stream_id (some (start_of since now)))

-- `decide` drops exactly the events that are named "error".
abbrev is_ignored : Decision → Bool
is_ignored ignored = true
is_ignored (letter l) = false
is_ignored raises = false

kept_letter :
    (lib : Library) (record_bytes : Option (List ℕ))
    → is_ignored (dlq_letter lib record_bytes) ≡ false
kept_letter lib none = refl
kept_letter lib (some b) =
    elim (lib.decode b)
      as (λ s.
        is_ignored (elim s [
          | none ↦ raises
          | some s ↦ letter (record { topic = "wiki.dlq"; key = none; value = s })
        ])
        ≡ false) [ none ↦ refl | some s ↦ refl ]

kept_choice :
    (out : Writer) (refusal : Reason → Decision)
    → ((r : Reason) → is_ignored (refusal r) ≡ false)
    → (p : Parsed (Fields × String)) → is_ignored (choose out refusal p) ≡ false
unfolding choose
kept_choice out refusal h (parsed (raw, key)) = refl
kept_choice out refusal h (refused reason) = h reason
kept_choice out refusal h (raised x) = refl

ignored-decide :
    (lib : Library) (out : Writer) (failed_at : String) (e : SseEvent)
    → is_ignored (decide lib out failed_at e) ≡ (e.event == "error")
unfolding decide refuse
ignored-decide lib out failed_at e = elim (Bool-cases (e.event == "error")) [
  | inl q ↦ rw q refl
  | inr q ↦ rw q (
      kept_choice out (refuse lib out failed_at e) (λ r. kept_letter lib _)
        (read_event lib e.payload))
]

-- Whether the loop goes on after this result, if nothing stopped the ingestor.
abbrev pub goes_on : Handled → Bool
goes_on dropped = true
goes_on failed = false
goes_on (sent_to l none) = false
goes_on (sent_to l (some b)) = true

ids-taken :
    (l : Letter) (seq : ℕ) (stream_id : Option String) (g : Ingestor) (result : Option Bool)
    → (result ≡ some false → g.running ≡ false)
    → goes_on (sent_to l result) ≡ true
    → g.running ≡ true
    → map (λ s. s.1) (sent_after [] seq stream_id result) ≡ stream_id ∷ []
unfolding sent_after
ids-taken l seq stream_id g none stopped on run = absurd (cc)
ids-taken l seq stream_id g (some true) stopped on run = refl
ids-taken l seq stream_id g (some false) stopped on run =
    let off : g.running ≡ false = stopped refl in absurd (cc)

ids-post :
    (out : Writer) (g : Ingestor) (e : SseEvent) (d : Decision) (attempts : List Attempt)
    → is_ignored d ≡ (e.event == "error")
    → let (g', result) = post out g e d attempts in
      goes_on result ≡ true
      → g'.running ≡ true
      → map (λ s. s.1) (sent_by g e.event_id result) ≡ ids_of e
unfolding post sent_by ids_of sent_after send
ids-post out g e ignored attempts same on run = ground arith
ids-post out g e raises attempts same on run = absurd (ground arith)
ids-post out g e (letter l) attempts same on run = elim (Bool-cases (encodes out l)) [
  | inl q ↦
      let on' : goes_on (sent_to l (send g e.event_id attempts).1) ≡ true = rw q at on in
      let run' : (send g e.event_id attempts).0.running ≡ true = rw q at run in
      rw (q, ← same)
        (ids-taken l (g.seq + 1) e.event_id (send g e.event_id attempts).0
          (send g e.event_id attempts).1 (running-send_loop attempts g (g.seq + 1) e.event_id none)
          on' run')
  | inr q ↦ let on' : false ≡ true = rw q at on in absurd (cc)
]

pub ids-handle :
    (lib : Library) (out : Writer) (failed_at : String) (g : Ingestor) (e : SseEvent)
    (attempts : List Attempt)
    → let (g', result) = handle lib out failed_at g e attempts in
      goes_on result ≡ true
      → g'.running ≡ true
      → map (λ s. s.1) (sent_by g e.event_id result) ≡ ids_of e
unfolding handle
ids-handle lib out failed_at g e attempts on run =
    let d = decide lib out failed_at e in
    let marked = mark_refused g d in
    ap (map (λ s. s.1)) (
      sym (sent_by-seq marked g e.event_id (post out marked e d attempts).1 (seq-mark_refused g d)))
    ∙ ids-post out marked e d attempts (ignored-decide lib out failed_at e) on run

pub still : (g : Ingestor) (t : Turn) → (after_turn g t).running ≡ true → g.running ≡ true
still g t run = elim (Bool-cases g.running) [
  | inl q ↦ q
  | inr q ↦ let off = running-after_turn g t q in absurd (cc)
]
