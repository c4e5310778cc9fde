-- ===== src/Ingestor/Runs.antt =====
-- ingestor/main.py: whole runs of the ingestor, over sends, polls and stops.
use wikistream_kafka.Prelude.{
  ℕ, ◌+◌, ◌≡◌, refl, ap, ◌∙◌, subst, String, true, Option, none, List, [], ◌∷◌, ◌++◌, nat_eq,
  contains, length, All, append_assoc, ltb, arith, Bool-cases, inl, inr, append-nil, sym,
}
use wikistream_kafka.Ingestor.{Sent, Checkpoint}
use wikistream_kafka.Ingestor.Release.{all_released}
use wikistream_kafka.Ingestor.Process.{
  Ingestor, ingestor, stop, mark_error, Delivery, serve, Attempt, send, shutdown,
}
use wikistream_kafka.Ingestor.Safety.{behind, Safe, Safe-start}
use wikistream_kafka.Ingestor.Resume.{
  log_all, log_attempts, sent_after, Expected, AllExpected, serve-Safe, send-Safe,
}

-- What a run does, with the messages sent and the numbers delivered so far.
pub data Run (loaded : Checkpoint) (now : ℕ) : Ingestor → List Sent → List ℕ → Type 0 where
  start : Run loaded now (ingestor loaded now) [] []
  sending :
      {g : Ingestor} {sent : List Sent} {log : List ℕ}
      → Run loaded now g sent log
      → (stream_id : Option String) (attempts : List Attempt) → AllExpected g.seq attempts
      → Run loaded now
          (send g stream_id attempts).0
          (sent_after sent (g.seq + 1) stream_id (send g stream_id attempts).1)
          (log_attempts g none log attempts)
  polling :
      {g : Ingestor} {sent : List Sent} {log : List ℕ}
      → Run loaded now g sent log
      → (callbacks : List Delivery) → Expected g.seq callbacks
      → Run loaded now (serve g callbacks) sent (log_all log callbacks)
  stopping :
      {g : Ingestor} {sent : List Sent} {log : List ℕ}
      → Run loaded now g sent log
      → Run loaded now (stop g) sent log
  refusing :
      {g : Ingestor} {sent : List Sent} {log : List ℕ}
      → Run loaded now g sent log
      → Run loaded now (mark_error g) sent log

mark_error-Safe :
    (loaded : Checkpoint) (g : Ingestor) (sent : List Sent) (log : List ℕ)
    → Safe loaded g sent log
    → Safe loaded (mark_error g) sent log
unfolding mark_error
mark_error-Safe loaded g sent log h = record {
  released = h.released;
  follows = h.follows;
  checkpoint = h.checkpoint;
  stored = h.stored;
  later = h.later;
  order = h.order;
  file = h.file;
  waiting = h.waiting;
  numbered = h.numbered;
  ascending = h.ascending;
  below = h.below;
}

stop-Safe :
    (loaded : Checkpoint) (g : Ingestor) (sent : List Sent) (log : List ℕ)
    → Safe loaded g sent log
    → Safe loaded (stop g) sent log
unfolding stop
stop-Safe loaded g sent log h = record {
  released = h.released;
  follows = h.follows;
  checkpoint = h.checkpoint;
  stored = h.stored;
  later = h.later;
  order = h.order;
  file = h.file;
  waiting = h.waiting;
  numbered = h.numbered;
  ascending = h.ascending;
  below = h.below;
}

pub Run-Safe :
    (loaded : Checkpoint) (now : ℕ) {g : Ingestor} {sent : List Sent} {log : List ℕ}
    → Run loaded now g sent log
    → Safe loaded g sent log
Run-Safe loaded now start = Safe-start loaded now
Run-Safe loaded now (sending {g} {sent} {log} r stream_id attempts known) =
    send-Safe loaded stream_id sent g log attempts known (Run-Safe loaded now r)
Run-Safe loaded now (polling {g} {sent} {log} r callbacks known) =
    serve-Safe loaded g callbacks sent log known (Run-Safe loaded now r)
Run-Safe loaded now (stopping {g} {sent} {log} r) =
    stop-Safe loaded g sent log (Run-Safe loaded now r)
Run-Safe loaded now (refusing {g} {sent} {log} r) =
    mark_error-Safe loaded g sent log (Run-Safe loaded now r)

-- At every moment of a run, the checkpoint file is behind a beginning of the messages sent of which
-- Kafka confirmed every one, in the order in which they were sent: whatever was lost, a start from
-- the file reads it again.
pub checkpoint_safe :
    (loaded : Checkpoint) (now : ℕ) {g : Ingestor} {sent : List Sent} {log : List ℕ}
    → Run loaded now g sent log
    → (stored : List Sent) × (rest : List Sent) × (sent ≡ stored ++ rest)
      × All (λ s. contains log s.0 ≡ true) stored
      × (g.saved ≡ behind loaded stored)
checkpoint_safe loaded now {g} {sent} {log} r =
    let h = Run-Safe loaded now r in
    let whole : sent ≡ h.stored ++ (h.later ++ g.tracker.pending) =
      h.follows.split
      ∙ ap (λ (l : List Sent). l ++ g.tracker.pending) h.order
      ∙ append_assoc h.stored h.later g.tracker.pending in
    let done : All (λ s. contains log s.0 ≡ true) (h.stored ++ h.later) =
      subst (λ (l : List Sent). All (λ s. contains log s.0 ≡ true) l) h.order h.follows.done in
    (h.stored, h.later ++ g.tracker.pending, whole, first_part h.stored h.later done, h.file)
  where
    first_part :
        (xs ys : List Sent)
        → All (λ s. contains log s.0 ≡ true) (xs ++ ys)
        → All (λ s. contains log s.0 ≡ true) xs
    first_part [] ys a = tt
    first_part (x ∷ xs) ys a = (a.0, first_part xs ys a.1)

-- If every message sent has been confirmed by the time of the shutdown, in whatever order, the file
-- that the shutdown leaves is behind all of them.
pub shutdown_complete :
    (loaded : Checkpoint) (now : ℕ) {g : Ingestor} {sent : List Sent} {log : List ℕ}
    (callbacks : List Delivery)
    → Run loaded now g sent log
    → Expected g.seq callbacks
    → All (λ s. contains (log_all log callbacks) s.0 ≡ true) sent
    → (shutdown g callbacks).saved ≡ behind loaded sent
unfolding shutdown
shutdown_complete loaded now {g} {sent} {log} callbacks r known all =
    let g' = serve g callbacks in
    let h = Run-Safe loaded now (polling r callbacks known) in
    let (idle, released) =
      all_released g'.tracker sent h.released (log_all log callbacks) h.follows h.ascending all in
    elim (Bool-cases (ltb 0 g'.unsaved)) [
      | inl q ↦ rw (q, released) h.checkpoint
      | inr q ↦
          let nothing : h.later ≡ [] = no_later h.later (ground (arith, h.waiting)) in
          let same : h.stored ≡ sent =
            sym (append-nil h.stored)
            ∙ sym (ap (λ (l : List Sent). h.stored ++ l) nothing)
            ∙ sym h.order
            ∙ sym released in
          rw q (subst (λ (l : List Sent). g'.saved ≡ behind loaded l) same h.file)
    ]
  where
    no_later : (l : List Sent) → length l ≡ 0 → l ≡ []
    no_later [] e = refl
    no_later (x ∷ l) e = absurd (omega arith)
