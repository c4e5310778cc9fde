-- ===== src/Tests/Ingest.antt =====
-- ingestor/main.py on small inputs.
use wikistream_kafka.Prelude.{
  ◌≡◌, refl, true, none, some, List, [], ◌∷◌, ◌++◌, contains, discard, insert, nat_eq, All, arith,
}
use wikistream_kafka.Ingestor.{Sent, Checkpoint, confirm, release, register, advance}
use wikistream_kafka.Ingestor.Tracker.{newest_of}
use wikistream_kafka.Ingestor.Process.{
  Ingestor, ingestor, Delivery, on_delivery, delivered, delivery_failed, maybe_save, serve, Attempt,
  accepted, full, send, send_loop, shutdown, give_up,
}
use wikistream_kafka.Ingestor.Safety.{behind}
use wikistream_kafka.Ingestor.Resume.{log_all, log_delivery, log_attempts, sent_after}
use wikistream_kafka.Ingestor.Runs.{Run, start, sending, checkpoint_safe, shutdown_complete}

program : Unit {0}
unfolding contains discard insert confirm release register advance newest_of on_delivery delivered
    delivery_failed maybe_save serve send send_loop shutdown give_up log_all log_delivery
    log_attempts sent_after
program = tt

abbrev loaded : Checkpoint
loaded = record { last_event_id = some "old"; events_confirmed = 7 }

abbrev begin : Ingestor
begin = ingestor loaded 0

abbrev one : Ingestor
one = (send begin (some "a") (accepted ∷ [])).0

-- The queue is full at first; the callback of the first message comes while the second waits.
abbrev busy : List Attempt
busy = full 100 (record { err = none; seq = 1; now = 100 } ∷ []) ∷ accepted ∷ []

abbrev two : Ingestor
two = (send one (some "b") busy).0

abbrev last_callback : List Delivery
last_callback = record { err = none; seq = 2; now = 9000 } ∷ []

-- After the second confirmation the file is behind both messages.
saves_both :
    (serve two last_callback).saved ≡ record { last_event_id = some "b"; events_confirmed = 9 }
unfolding program
saves_both = refl

-- A confirmation out of order releases nothing until the older message is confirmed.
out_of_order :
    (confirm (record { pending = (1, some "a") ∷ (2, some "b") ∷ []; confirmed = [] }) 2).count ≡ 0
unfolding program
out_of_order = refl

abbrev two_sent : List Sent
two_sent = (1, some "a") ∷ (2, some "b") ∷ []

two-Run : Run loaded 0 two two_sent (1 ∷ [])
unfolding program
two-Run =
    sending (sending start (some "a") (accepted ∷ []) tt) (some "b") busy ((omega arith, tt), tt)

checkpoint_safe_example :
    (stored : List Sent) × (rest : List Sent) × (two_sent ≡ stored ++ rest)
    × All (λ s. contains (1 ∷ []) s.0 ≡ true) stored
    × (two.saved ≡ behind loaded stored)
checkpoint_safe_example = checkpoint_safe loaded 0 two-Run

shutdown_complete_example : (shutdown two last_callback).saved ≡ behind loaded two_sent
unfolding program
shutdown_complete_example =
    shutdown_complete loaded 0 last_callback two-Run (omega arith) (refl, (refl, tt))
