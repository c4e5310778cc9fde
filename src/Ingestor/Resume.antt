-- ===== src/Ingestor/Resume.antt =====
-- ingestor/main.py: the callbacks, the sends and whole runs keep the checkpoint safe.
use wikistream_kafka.Prelude.{
  ℕ, ◌+◌, ◌-◌, ◌≤◌, ◌<◌, ◌≡◌, refl, inl, inr, String, Bool, false, not, ◌||◌, Option, none, some,
  List, [], ◌∷◌, ◌++◌, arith, nat_eq, contains, leb, if◌then◌else◌, All, All-map, All-append,
  Bool-cases, Option-cases, ◌∙◌,
}
use wikistream_kafka.Ingestor.{Sent, register, Checkpoint}
use wikistream_kafka.Ingestor.Tracker.{Ascending, register-Follows}
use wikistream_kafka.Ingestor.Process.{
  Ingestor, delivery_failed, delivered, maybe_save, Delivery, on_delivery, serve, Attempt, accepted,
  full, since, give_up, send_loop, send, queue_full_give_up_ms,
}
use wikistream_kafka.Ingestor.Safety.{Safe, maybe_save-Safe, confirmed, confirmed-Safe}

-- The numbers that were delivered, after a callback and after several.
unfoldable pub log_delivery : List ℕ → Delivery → List ℕ
log_delivery log d = elim d.err [ none ↦ d.seq ∷ log | some err ↦ log ]

unfoldable pub log_all : List ℕ → List Delivery → List ℕ
log_all log [] = log
log_all log (d ∷ rest) = log_all (log_delivery log d) rest

-- Kafka calls back for messages that `produce` took.
abbrev pub Expected : ℕ → List Delivery → Type 0
Expected newest callbacks = All (λ d. d.seq ≤ newest) callbacks

failed-Safe :
    (loaded : Checkpoint) (g : Ingestor) (err : String) (sent : List Sent) (log : List ℕ)
    → Safe loaded g sent log
    → Safe loaded (delivery_failed g err) sent log
unfolding delivery_failed
failed-Safe loaded g err sent log h = record {
  released = h.released;
  follows = h.follows;
  checkpoint = h.checkpoint;
  stored = h.stored;
  later = h.later;
  order = h.order;
  file = h.file;
  waiting = h.waiting;
  numbered = h.numbered;
  ascending = h.ascending;
  below = h.below;
}

delivered-Safe :
    (loaded : Checkpoint) (g : Ingestor) (seq now : ℕ) (sent : List Sent) (log : List ℕ)
    → seq ≤ g.seq
    → Safe loaded g sent log
    → Safe loaded (delivered g seq now) sent (seq ∷ log)
unfolding delivered
delivered-Safe loaded g seq now sent log known h =
    maybe_save-Safe loaded (confirmed g seq) now sent (seq ∷ log)
      (confirmed-Safe loaded g seq sent log known h)

on_delivery-Safe :
    (loaded : Checkpoint) (g : Ingestor) (d : Delivery) (sent : List Sent) (log : List ℕ)
    → d.seq ≤ g.seq
    → Safe loaded g sent log
    → Safe loaded (on_delivery g d) sent (log_delivery log d)
unfolding on_delivery log_delivery
on_delivery-Safe loaded g d sent log known h = elim (Option-cases d.err) [
  | inl q ↦ rw (q, on_delivery, log_delivery) (delivered-Safe loaded g d.seq d.now sent log known h)
  | inr q ↦ rw (q.1, on_delivery, log_delivery) (failed-Safe loaded g q.0 sent log h)
]

-- A callback sends nothing.
seq-on_delivery : (g : Ingestor) (d : Delivery) → (on_delivery g d).seq ≡ g.seq
unfolding on_delivery delivered maybe_save delivery_failed
seq-on_delivery g d = ground arith

pub seq-serve : (g : Ingestor) (callbacks : List Delivery) → (serve g callbacks).seq ≡ g.seq
unfolding serve
seq-serve g [] = refl
seq-serve g (d ∷ rest) = seq-serve (on_delivery g d) rest ∙ seq-on_delivery g d

pub serve-Safe :
    (loaded : Checkpoint) (g : Ingestor) (callbacks : List Delivery) (sent : List Sent)
    (log : List ℕ)
    → Expected g.seq callbacks
    → Safe loaded g sent log
    → Safe loaded (serve g callbacks) sent (log_all log callbacks)
unfolding serve log_all
serve-Safe loaded g [] sent log known h = h
serve-Safe loaded g (d ∷ rest) sent log known h =
    serve-Safe loaded (on_delivery g d) rest sent (log_delivery log d)
      (All-map (λ x. x.seq ≤ g.seq) (λ x. x.seq ≤ (on_delivery g d).seq) rest
        (λ x m. omega (arith, seq-on_delivery g d)) known.1)
      (on_delivery-Safe loaded g d sent log known.0 h)

-- What a call of `_send` adds: the message, if it was taken, and the callbacks served meanwhile.
unfoldable pub sent_after : List Sent → ℕ → Option String → Option Bool → List Sent
sent_after sent seq stream_id result = elim result [
  | none ↦ sent
  | some taken ↦ if taken then sent ++ (seq, stream_id) ∷ [] else sent
]

unfoldable pub log_attempts : Ingestor → Option ℕ → List ℕ → List Attempt → List ℕ
log_attempts g waited_since log [] = log
log_attempts g waited_since log (accepted ∷ rest) = log
log_attempts g waited_since log (full now callbacks ∷ rest) =
    let start = since waited_since now in
    let again = log_attempts (serve g callbacks) (some start) (log_all log callbacks) rest in
    if leb queue_full_give_up_ms (now - start) || not g.running then log else again

abbrev pub AllExpected : ℕ → List Attempt → Type 0
AllExpected newest [] = Unit
AllExpected newest (accepted ∷ rest) = AllExpected newest rest
AllExpected newest (full now callbacks ∷ rest) = Expected newest callbacks × AllExpected newest rest

append-Ascending :
    (sent : List Sent) (s : Sent)
    → Ascending sent
    → All (λ x. x.0 < s.0) sent
    → Ascending (sent ++ s ∷ [])
append-Ascending [] s up below = (tt, tt)
append-Ascending (x ∷ sent) s up below = (
  All-append (λ y. x.0 < y.0) sent (s ∷ []) up.0 (below.0, tt),
  append-Ascending sent s up.1 below.1,
)

accept-Safe :
    (loaded : Checkpoint) (g : Ingestor) (seq : ℕ) (stream_id : Option String) (sent : List Sent)
    (log : List ℕ)
    → seq ≡ g.seq + 1
    → Safe loaded g sent log
    → Safe loaded
        (record g { seq = seq; tracker = register g.tracker seq stream_id })
        (sent ++ (seq, stream_id) ∷ [])
        log
accept-Safe loaded g seq stream_id sent log q h =
    let unknown : contains log seq ≡ false = elim (Bool-cases (contains log seq)) [
      | inl d ↦ absurd (let le = h.numbered seq d in omega arith)
      | inr d ↦ d
    ] in
    record {
      released = h.released;
      follows = register-Follows g.tracker sent h.released log seq stream_id unknown h.follows;
      checkpoint = h.checkpoint;
      stored = h.stored;
      later = h.later;
      order = h.order;
      file = h.file;
      waiting = h.waiting;
      numbered = λ n d. let le = h.numbered n d in omega arith;
      ascending =
          append-Ascending sent (seq, stream_id) h.ascending
            (All-map (λ x. x.0 ≤ g.seq) (λ x. x.0 < seq) sent (λ x m. omega arith) h.below);
      below =
          All-append (λ x. x.0 ≤ seq) sent ((seq, stream_id) ∷ [])
            (All-map (λ x. x.0 ≤ g.seq) (λ x. x.0 ≤ seq) sent (λ x m. omega arith) h.below)
            (omega arith, tt);
    }

give_up-Safe :
    (loaded : Checkpoint) (g : Ingestor) (sent : List Sent) (log : List ℕ)
    → Safe loaded g sent log
    → Safe loaded (give_up g) sent log
unfolding give_up
give_up-Safe loaded g sent log h = record {
  released = h.released;
  follows = h.follows;
  checkpoint = h.checkpoint;
  stored = h.stored;
  later = h.later;
  order = h.order;
  file = h.file;
  waiting = h.waiting;
  numbered = h.numbered;
  ascending = h.ascending;
  below = h.below;
}

module _ (loaded : Checkpoint) (stream_id : Option String) (sent : List Sent) where
  send_loop-Safe :
      (g : Ingestor) (seq : ℕ) (waited_since : Option ℕ) (log : List ℕ) (attempts : List Attempt)
      → seq ≡ g.seq + 1
      → AllExpected g.seq attempts
      → Safe loaded g sent log
      → Safe loaded
          (send_loop g seq stream_id waited_since attempts).0
          (sent_after sent seq stream_id (send_loop g seq stream_id waited_since attempts).1)
          (log_attempts g waited_since log attempts)
  unfolding send_loop sent_after log_attempts
  send_loop-Safe g seq waited_since log [] q known h = h
  send_loop-Safe g seq waited_since log (accepted ∷ rest) q known h =
      accept-Safe loaded g seq stream_id sent log q h
  send_loop-Safe g seq waited_since log (full now callbacks ∷ rest) q known h =
      let start = since waited_since now in
      let g' = serve g callbacks in
      let same = seq-serve g callbacks in
      elim (Bool-cases (leb queue_full_give_up_ms (now - start) || not g.running)) [
        | inl over ↦ rw over (give_up-Safe loaded g sent log h)
        | inr again ↦ rw again (
            send_loop-Safe (serve g callbacks) seq (some (since waited_since now))
              (log_all log callbacks) rest (omega arith) (rw same known.1)
              (serve-Safe loaded g callbacks sent log known.0 h))
      ]

  -- One call of `_send`, whatever the producer answers, keeps the checkpoint safe; the message
  -- counts as sent exactly if the result says so.
  pub send-Safe :
      (g : Ingestor) (log : List ℕ) (attempts : List Attempt)
      → AllExpected g.seq attempts
      → Safe loaded g sent log
      → Safe loaded
          (send g stream_id attempts).0
          (sent_after sent (g.seq + 1) stream_id (send g stream_id attempts).1)
          (log_attempts g none log attempts)
  unfolding send
  send-Safe g log attempts = send_loop-Safe g (g.seq + 1) none log attempts refl
