-- ===== src/Ingestor/Through.antt =====
-- ingestor/main.py: the loop over one connection sends every event, and every state is that of a run.
use wikistream_kafka.Prelude.{
  subst, ℕ, ◌≡◌, refl, ◌∙◌, sym, String, Bool, true, false, Option, none, some, List, [], ◌∷◌, ◌++◌,
  map, append_assoc, append-nil, map-append, if◌then◌else◌, string_eq, Bool-cases, inl, inr,
}
use wikistream_kafka.Parsing.{Library}
use wikistream_kafka.Ingestor.{Sent, Checkpoint}
use wikistream_kafka.Ingestor.Process.{Ingestor}
use wikistream_kafka.Ingestor.Handle.{Writer, Handled, dropped, sent_to, failed, handle}
use wikistream_kafka.Ingestor.Loop.{
  Turn, after_turn, proceed, read_events, Events, Progress, finished, left, crashed, waiting,
}
use wikistream_kafka.Ingestor.Reading.{sent_by, Reached, ExpectedTurns, handle-Run, after_turn-Run}
use wikistream_kafka.Ingestor.Kept.{ids_of, stream_ids, still, ids-handle, goes_on}
use wikistream_kafka.Ingestor.Runs.{Run}

-- The end of a run over one connection: what was sent, and that it is everything if the loop got
-- through the events.
abbrev Kept : Checkpoint → ℕ → Events → List Sent → List (Option String) → Type 0
Kept loaded now r sent ids =
    (new : List Sent) × Reached loaded now r.ingestor (sent ++ new)
    × (r.progress ≡ finished → map (λ s. s.1) new ≡ ids)

-- Where the loop is not through, it has not finished.
abbrev is_finished : Progress → Bool
is_finished finished = true
is_finished left = false
is_finished crashed = false
is_finished waiting = false

not_finished : (p : Progress) → is_finished p ≡ false → p ≡ finished → ⊥
not_finished p h e = let f : is_finished p ≡ true = rw e refl in absurd (cc)

module _ (loaded : Checkpoint) (now : ℕ) where
  -- The loop is left here: nothing more is sent, and it is not through.
  stays :
      (sent sent_now : List Sent) (ids : List (Option String)) (r : Events)
      → is_finished r.progress ≡ false
      → Reached loaded now r.ingestor (sent ++ sent_now)
      → Kept loaded now r sent ids
  stays sent sent_now ids r ended reached =
      (sent_now, reached, λ e. absurd (not_finished r.progress ended e))

  goes :
      (sent sent_now : List Sent) (ids more : List (Option String)) (r : Events)
      → map (λ s. s.1) sent_now ≡ ids
      → Kept loaded now r (sent ++ sent_now) more
      → Kept loaded now r sent (ids ++ more)
  goes sent sent_now ids more r e (new, reached, all) = (
    sent_now ++ new,
    rw (← append_assoc sent sent_now new) reached,
    λ f. map-append (λ (s : Sent). s.1) sent_now new ∙ rw (e, all f) refl,
  )

  next-Kept :
      (sent sent_now : List Sent) (ids more : List (Option String)) (polled : Ingestor)
      (rest : Events)
      → Reached loaded now polled (sent ++ sent_now)
      → Kept loaded now rest (sent ++ sent_now) more
      → (polled.running ≡ true → map (λ s. s.1) sent_now ≡ ids)
      → Kept loaded now
          (if polled.running
            then rest
            else record { ingestor = polled; backoff = 1; progress = left })
          sent
          (ids ++ more)
  next-Kept sent sent_now ids more polled rest reached kept all = elim (Bool-cases polled.running) [
    | inl q ↦ subst here (sym q) (goes sent sent_now ids more rest (all q) kept)
    | inr q ↦ subst here (sym q) (stays sent sent_now (ids ++ more) stopped refl reached)
  ]
    where
      stopped : Events
      stopped = record { ingestor = polled; backoff = 1; progress = left }

      here : Bool → Type 0
      here b = Kept loaded now (if b then rest else stopped) sent (ids ++ more)

  proceed-Kept :
      (result : Handled) (g : Ingestor) (backoff : ℕ) (sent sent_now : List Sent)
      (ids more : List (Option String)) (polled : Ingestor) (rest : Events)
      → Reached loaded now g (sent ++ sent_now)
      → Reached loaded now polled (sent ++ sent_now)
      → Kept loaded now rest (sent ++ sent_now) more
      → (goes_on result ≡ true → polled.running ≡ true → map (λ s. s.1) sent_now ≡ ids)
      → Kept loaded now (proceed g backoff polled rest result) sent (ids ++ more)
  unfolding proceed
  proceed-Kept dropped g backoff sent sent_now ids more polled rest here reached kept all =
      next-Kept sent sent_now ids more polled rest reached kept (all refl)
  proceed-Kept (sent_to l (some b)) g backoff sent sent_now ids more polled rest here reached kept
        all =
      next-Kept sent sent_now ids more polled rest reached kept (all refl)
  proceed-Kept (sent_to l none) g backoff sent sent_now ids more polled rest here reached kept all =
      stays sent sent_now (ids ++ more)
        (record { ingestor = g; backoff = backoff; progress = waiting }) refl here
  proceed-Kept failed g backoff sent sent_now ids more polled rest here reached kept all =
      stays sent sent_now (ids ++ more)
        (record { ingestor = g; backoff = backoff; progress = crashed }) refl here

  read_events-Kept :
      (lib : Library) (out : Writer) (turns : List Turn) (g : Ingestor) (backoff : ℕ)
      (sent : List Sent)
      → ExpectedTurns lib out g turns
      → Reached loaded now g sent
      → Kept loaded now (read_events lib out g backoff turns) sent (stream_ids turns)
  unfolding read_events stream_ids
  read_events-Kept lib out [] g backoff sent known r = ([], rw append-nil r, λ e. refl)
  read_events-Kept lib out (t ∷ turns) g backoff sent known r =
      let h = handle lib out t.failed_at g t.event t.attempts in
      let polled = after_turn h.0 t in
      let sent_now = sent_by g t.event.event_id h.1 in
      let here = handle-Run loaded now lib out t.failed_at g sent t.event t.attempts known.0 r in
      let reached = after_turn-Run loaded now h.0 (sent ++ sent_now) t known.1 here in
      proceed-Kept h.1 h.0 backoff sent sent_now (ids_of t.event) (stream_ids turns) polled
        (read_events lib out polled 1 turns) here reached
        (read_events-Kept lib out turns polled 1 (sent ++ sent_now) known.2 reached)
        (λ on run. ids-handle lib out t.failed_at g t.event t.attempts on (still h.0 t run))

  -- However the broker answers and whenever a stop is requested, the loop over the events of a
  -- connection leaves the ingestor in a state of a run (so that its checkpoint file is safe), and if
  -- it gets through the events, it has sent on exactly one message for each event that is not named
  -- "error", in the order of the stream, with the id of that event: no event is skipped.
  pub no_event_skipped :
      (lib : Library) (out : Writer) (turns : List Turn) {g : Ingestor} (backoff : ℕ)
      {sent : List Sent} {log : List ℕ}
      → Run loaded now g sent log
      → ExpectedTurns lib out g turns
      → let after = read_events lib out g backoff turns in
        (new : List Sent) × (log' : List ℕ) × Run loaded now after.ingestor (sent ++ new) log'
        × (after.progress ≡ finished → map (λ s. s.1) new ≡ stream_ids turns)
  no_event_skipped lib out turns {g} backoff {sent} {log} r known =
      let (new, (log', r'), all) = read_events-Kept lib out turns g backoff sent known (log, r) in
      (new, log', r', all)
