-- ===== src/Tests/Transactions.antt =====
-- processors/transactional.py on small inputs.
use wikistream_kafka.Prelude.{
  ℕ, ◌+◌, ◌≡◌, refl, String, Bool, some, List, [], ◌∷◌, ◌++◌, nat_eq, false, arith,
}
use wikistream_kafka.Dict
use wikistream_kafka.Dict.{Dict}
use wikistream_kafka.Transactional.{
  Message, Hooks, Processor, Broker, Poll, nothing, received, assigns, revokes, commits,
  requires_abort, stop, abort, take_partitions, release_partitions, committed_of, on_assign,
  on_revoke, polled, collect_from, collect_batch, handle_all, send_offsets, process_batch,
  process_any, turn,
}
use wikistream_kafka.Transactional.Batches.{offsets_of, upto, Allowed, Orderly}
use wikistream_kafka.Transactional.Exactly.{
  started, empty_broker, Reach, begun, turned, crashed, Written, exactly_once,
}
use wikistream_kafka.Transactional.Lost.{aborted_lost, revoked_batch_committed}

program : Unit {0}
unfolding Dict.get Dict.put Dict.remove Dict.get_or stop abort take_partitions release_partitions
    committed_of on_assign on_revoke polled collect_from collect_batch handle_all send_offsets
    process_batch process_any turn offsets_of upto Allowed Orderly
program = tt

-- A subclass that counts its messages and passes their values on.
abbrev hooks : Hooks ℕ String String
hooks = record {
  handle = λ s m. (s + 1, m.value ∷ []);
  partitions_assigned = λ s qs. s;
  partitions_revoked = λ s qs. s;
}

abbrev message : ℕ → String → Message String
message offset value = record { partition = 0; offset = offset; value = value }

abbrev process : Processor ℕ
process = started hooks 0 10

abbrev broker : Broker String
broker = empty_broker hooks 0 10

abbrev first_polls : List (Poll String)
first_polls = assigns (0 ∷ []) ∷ nothing ∷ received (message 0 "a") ∷ received (message 1 "b") ∷ []

abbrev second_polls : List (Poll String)
second_polls = received (message 2 "c") ∷ []

abbrev once : Processor ℕ × Broker String × Bool
once = turn hooks process broker first_polls commits

commits_both : once.1 ≡ record { committed = (0, 2) ∷ []; output = "a" ∷ "b" ∷ [] }
unfolding program
commits_both = refl

-- The aborted message is counted as done.
aborts :
    Dict.get_or
      (turn hooks
        (turn hooks once.0 once.1 second_polls (requires_abort 1)).0
        once.1
        (received (message 3 "d") ∷ [])
        commits).1.committed
      0
      0
    ≡ 4
unfolding program
aborts = refl

orderly : Orderly hooks process broker [] first_polls
unfolding program
orderly = (λ q m. refl, (tt, (refl, (refl, tt))))

abbrev done : List (Message String)
done = message 0 "a" ∷ message 1 "b" ∷ []

reached : Reach hooks 0 10 once.0 once.1 done
unfolding program
reached = turned begun first_polls orderly

after_crash : Reach hooks 0 10 process once.1 done
unfolding program
after_crash = crashed reached second_polls 1

exactly_once_example :
    Written hooks 0 10 done once.1.output
    × ((q : ℕ) → offsets_of q done ≡ upto (Dict.get_or once.1.committed q 0))
exactly_once_example = exactly_once hooks 0 10 after_crash

holds_two : Dict.get once.0.positions 0 ≡ some 2
unfolding program
holds_two = refl

aborted_lost_example :
    let (p', b', raised) =
      turn hooks once.0 once.1 (received (message 2 "c") ∷ []) (requires_abort 1) in
    let (p'', b'', raised') = turn hooks p' b' (received (message 3 "d") ∷ []) commits in
    (raised ≡ false)
    × (Dict.get b''.committed 0 ≡ some 4)
    × (b''.output ≡ once.1.output ++ (hooks.handle p'.state (message 3 "d")).1)
unfolding program
aborted_lost_example =
    aborted_lost hooks once.0 once.1 (message 2 "c") (message 3 "d") 1 refl (omega arith)

revoked_batch_committed_example :
    let (p', b', raised) =
      turn hooks process broker (received (message 0 "a") ∷ revokes (0 ∷ []) ∷ []) commits in
    (b'.output ≡ [] ++ "a" ∷ []) × (Dict.get b'.committed 0 ≡ Dict.get broker.committed 0)
revoked_batch_committed_example =
    revoked_batch_committed hooks process broker (message 0 "a") refl (omega arith)
