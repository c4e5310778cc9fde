-- ===== src/Ingestor/Reading.antt =====
-- ingestor/main.py: the loop over the events keeps the checkpoint safe and sends every event.
use wikistream_kafka.Prelude.{
  ℕ, ◌+◌, ◌≡◌, refl, sym, subst, String, Bool, true, false, Option, none, some, List, [], ◌∷◌, ◌++◌,
  append-nil, string_eq, ◌==◌, Bool-cases, inl, inr, arith,
}
use wikistream_kafka.Parsing.{Library}
use wikistream_kafka.Sse.{SseEvent}
use wikistream_kafka.Ingestor.{Sent, Checkpoint}
use wikistream_kafka.Ingestor.Process.{Ingestor, mark_error, Attempt}
use wikistream_kafka.Ingestor.Resume.{sent_after, Expected, AllExpected}
use wikistream_kafka.Ingestor.Runs.{Run, sending, polling, stopping, refusing}
use wikistream_kafka.Ingestor.Handle.{
  Writer, Decision, ignored, letter, raises, decide, encodes, mark_refused, Handled, dropped,
  sent_to, failed, post, handle,
}
use wikistream_kafka.Ingestor.Loop.{Turn, after_turn}

-- The callbacks during the turns are for messages that `produce` took.
abbrev pub ExpectedTurns : Library → Writer → Ingestor → List Turn → Type 0
ExpectedTurns lib out g [] = Unit
ExpectedTurns lib out g (t ∷ turns) =
    let g' = (handle lib out t.failed_at g t.event t.attempts).0 in
    AllExpected g.seq t.attempts
    × Expected g'.seq t.callbacks
    × ExpectedTurns lib out (after_turn g' t) turns

-- What one event adds to the messages sent.
unfoldable pub sent_by : Ingestor → Option String → Handled → List Sent
sent_by g stream_id dropped = []
sent_by g stream_id failed = []
sent_by g stream_id (sent_to l result) = sent_after [] (g.seq + 1) stream_id result

-- Some run has led to this state, with these messages sent.
abbrev pub Reached : Checkpoint → ℕ → Ingestor → List Sent → Type 0
Reached loaded now g sent = (log : List ℕ) × Run loaded now g sent log

sent_after-append :
    (sent : List Sent) (seq : ℕ) (stream_id : Option String) (result : Option Bool)
    → sent_after sent seq stream_id result ≡ sent ++ sent_after [] seq stream_id result
unfolding sent_after
sent_after-append sent seq stream_id none = sym (append-nil sent)
sent_after-append sent seq stream_id (some true) = refl
sent_after-append sent seq stream_id (some false) = sym (append-nil sent)

pub sent_by-seq :
    (g h : Ingestor) (stream_id : Option String) (result : Handled)
    → g.seq ≡ h.seq
    → sent_by g stream_id result ≡ sent_by h stream_id result
unfolding sent_by
sent_by-seq g h stream_id result e = rw e refl

pub seq-mark_refused : (g : Ingestor) (d : Decision) → (mark_refused g d).seq ≡ g.seq
unfolding mark_refused mark_error
seq-mark_refused g d = ground arith

module _ (loaded : Checkpoint) (now : ℕ) where
  mark_refused-Run :
      (g : Ingestor) (sent : List Sent) (d : Decision)
      → Reached loaded now g sent
      → Reached loaded now (mark_refused g d) sent
  unfolding mark_refused
  mark_refused-Run g sent ignored r = r
  mark_refused-Run g sent raises (log, r) = (log, refusing r)
  mark_refused-Run g sent (letter l) (log, r) = elim (Bool-cases (l.topic == "wiki.dlq")) [
    | inl q ↦ rw q (log, refusing r)
    | inr q ↦ rw q (log, r)
  ]

  post-Run :
      (out : Writer) (g : Ingestor) (sent : List Sent) (e : SseEvent) (d : Decision)
      (attempts : List Attempt)
      → AllExpected g.seq attempts
      → Reached loaded now g sent
      → Reached loaded now
          (post out g e d attempts).0
          (sent ++ sent_by g e.event_id (post out g e d attempts).1)
  unfolding post sent_by
  post-Run out g sent e ignored attempts known r = rw append-nil r
  post-Run out g sent e raises attempts known r = rw append-nil r
  post-Run out g sent e (letter l) attempts known (log, r) = elim (Bool-cases (encodes out l)) [
    | inl q ↦ rw (q, ← sent_after-append) (_, sending r e.event_id attempts known)
    | inr q ↦ rw (q, append-nil) (log, r)
  ]

  pub handle-Run :
      (lib : Library) (out : Writer) (failed_at : String) (g : Ingestor) (sent : List Sent)
      (e : SseEvent) (attempts : List Attempt)
      → AllExpected g.seq attempts
      → Reached loaded now g sent
      → let (g', result) = handle lib out failed_at g e attempts in
        Reached loaded now g' (sent ++ sent_by g e.event_id result)
  unfolding handle
  handle-Run lib out failed_at g sent e attempts known r =
      let d = decide lib out failed_at e in
      let marked = mark_refused g d in
      let same = seq-mark_refused g d in
      subst (λ (new : List Sent). Reached loaded now (post out marked e d attempts).0 (sent ++ new))
        (sent_by-seq marked g e.event_id (post out marked e d attempts).1 same)
        (post-Run out marked sent e d attempts
          (subst (λ (n : ℕ). AllExpected n attempts) (sym same) known)
          (mark_refused-Run g sent d r))

  pub after_turn-Run :
      (g : Ingestor) (sent : List Sent) (t : Turn)
      → Expected g.seq t.callbacks
      → Reached loaded now g sent
      → Reached loaded now (after_turn g t) sent
  after_turn-Run g sent t known (log, r) = elim (Bool-cases t.signalled) [
    | inl q ↦ rw q (_, stopping (polling r t.callbacks known))
    | inr q ↦ rw q (_, polling r t.callbacks known)
  ]
