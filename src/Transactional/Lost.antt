-- ===== src/Transactional/Lost.antt =====
-- processors/transactional.py: what happens to a batch that is aborted, and to one whose
-- partition is taken away.
use wikistream_kafka.Prelude.{
  ℕ, ◌+◌, ◌≤◌, ◌≡◌, refl, ◌∙◌, inl, inr, true, false, none, some, [], ◌∷◌, ◌==◌, if◌then◌else◌,
  Option, ap, ◌++◌, nat_eq, Bool-cases, arith, leb,
}
use wikistream_kafka.Dict
use wikistream_kafka.Dict.{Dict, get-put, get-put_self, get-remove, get-remove_self}
use wikistream_kafka.Transactional.{
  Message, Hooks, Processor, Broker, received, revokes, commits, requires_abort, abort,
  collect_from, collect_batch, on_revoke, polled, release_partitions, handle_all, process_batch,
  process_any, turn,
}
use wikistream_kafka.Transactional.Collecting.{get-send_offsets}

-- The position after one more record of a partition, from the one after an earlier record.
moved_on :
    (start positions : Dict ℕ ℕ) (q r a c : ℕ) (o : Option ℕ)
    → positions ≡ Dict.put start q a
    → (elim (Dict.get (Dict.put positions r c) q) [ none ↦ o | some n ↦ some n ])
      ≡ some (if r == q then c else a)
moved_on start positions q r a c o e = elim (Bool-cases (r == q)) [
  | inl same ↦ rw (get-put positions r q c, same) refl
  | inr other ↦ rw (get-put positions r q c, other, e, get-put_self start q a) refl
]

module _ {S V Out : Type 0} (hooks : Hooks S V Out) where
  -- the consumer after a record
  abbrev advanced : Processor S → Message V → Processor S
  advanced p m = record p { positions = Dict.put p.positions m.partition (m.offset + 1) }

  collected :
      (p : Processor S) (b : Broker Out) (m : Message V)
      → p.running ≡ true
      → 2 ≤ p.max_batch
      → collect_batch hooks p b (received m ∷ revokes (m.partition ∷ []) ∷ [])
        ≡ (on_revoke hooks (advanced p m) (m.partition ∷ []), m ∷ [])
  unfolding collect_batch collect_from polled
  collected p b m run room =
      let below_one : leb p.max_batch 0 ≡ false = ground arith in
      let below_two : leb p.max_batch 1 ≡ false = ground arith in
      rw (run, below_one, below_two) refl

  collected_one :
      (p : Processor S) (b : Broker Out) (m : Message V)
      → p.running ≡ true
      → 1 ≤ p.max_batch
      → collect_batch hooks p b (received m ∷ []) ≡ (advanced p m, m ∷ [])
  unfolding collect_batch collect_from polled
  collected_one p b m run room =
      let below_one : leb p.max_batch 0 ≡ false = ground arith in rw (run, below_one) refl

  -- the round of one message that is aborted
  aborted_turn :
      (p : Processor S) (b : Broker Out) (m : Message V) (n : ℕ)
      → p.running ≡ true
      → 1 ≤ p.max_batch
      → let (p', b', raised) = turn hooks p b (received m ∷ []) (requires_abort n) in
        (p'.positions ≡ Dict.put p.positions m.partition (m.offset + 1))
        × (p'.running ≡ true)
        × (p'.max_batch ≡ p.max_batch)
        × (b' ≡ b)
        × (raised ≡ false)
  unfolding turn process_any process_batch abort
  aborted_turn p b m n run room =
      rw (turn, collected_one p b m run room) (refl, run, refl, refl, refl)

  committing_turn :
      (p : Processor S) (b : Broker Out) (m : Message V) (q : ℕ)
      → p.running ≡ true
      → 1 ≤ p.max_batch
      → let b' = (turn hooks p b (received m ∷ []) commits).1 in
        (b'.output ≡ b.output ++ (hooks.handle p.state m).1)
        × (Dict.get b'.committed q
            ≡ (elim (Dict.get (Dict.put p.positions m.partition (m.offset + 1)) q) [
              | none ↦ Dict.get b.committed q
              | some n ↦ some n
            ]))
  unfolding turn process_any process_batch handle_all
  committing_turn p b m q run room =
      rw (turn, collected_one p b m run room)
        (refl, get-send_offsets hooks b.committed (advanced p m).positions q)

  -- The transaction of a round with one message is aborted, and the process goes on with a round
  -- that commits. Since the consumer is not moved back, that commit moves the partition of the first
  -- message past it, whatever partition the next message is of, while the output holds only what
  -- the next message wrote: the first message is lost.
  pub aborted_lost :
      (p : Processor S) (b : Broker Out) (m later : Message V) (n : ℕ)
      → p.running ≡ true
      → 1 ≤ p.max_batch
      → let (p', b', raised) = turn hooks p b (received m ∷ []) (requires_abort n) in
        let (p'', b'', raised') = turn hooks p' b' (received later ∷ []) commits in
        (raised ≡ false)
        × (Dict.get b''.committed m.partition
            ≡ some (if later.partition == m.partition then later.offset + 1 else m.offset + 1))
        × (b''.output ≡ b.output ++ (hooks.handle p'.state later).1)
  aborted_lost p b m later n run room =
      let first = turn hooks p b (received m ∷ []) (requires_abort n) in
      let (positions, running, limit, same, raised) = aborted_turn p b m n run room in
      let (out, committed) =
        committing_turn first.0 first.1 later m.partition running (omega (arith, limit, room)) in
      (
        raised,
        committed
            ∙ moved_on p.positions first.0.positions m.partition later.partition (m.offset + 1)
                (later.offset + 1) (Dict.get first.1.committed m.partition) positions,
        out ∙ ap (λ (x : Broker Out). x.output ++ (hooks.handle first.0.state later).1) same,
      )

  -- the partition is not assigned after `on_revoke`, and the state is the one of the hook
  on_revoke-alone :
      (p : Processor S) (q : ℕ)
      → (Dict.get (on_revoke hooks p (q ∷ [])).positions q ≡ none)
        × ((on_revoke hooks p (q ∷ [])).state ≡ hooks.partitions_revoked p.state (q ∷ []))
  unfolding on_revoke release_partitions abort
  on_revoke-alone p q = elim (Bool-cases p.in_transaction) [
    | inl e ↦ rw e (get-remove_self p.positions q, refl)
    | inr e ↦ rw e (get-remove_self p.positions q, refl)
  ]

  commit_after :
      (p : Processor S) (b : Broker Out) (m : Message V) (s : S) (q : ℕ)
      → (Dict.get p.positions q ≡ none) × (p.state ≡ s)
      → let (p', b', raised) = process_any hooks p b (m ∷ []) commits in
        (b'.output ≡ b.output ++ (hooks.handle s m).1)
        × (Dict.get b'.committed q ≡ Dict.get b.committed q)
  unfolding process_any process_batch handle_all
  commit_after p b m s q (gone, same) =
      (rw same refl, get-send_offsets hooks b.committed p.positions q ∙ rw gone refl)

  -- A message is received and, before the deadline of the same batch, its partition is taken away:
  -- the transaction still commits the output of the message, but not its offset, so the next owner
  -- of the partition handles the message again.
  pub revoked_batch_committed :
      (p : Processor S) (b : Broker Out) (m : Message V)
      → p.running ≡ true
      → 2 ≤ p.max_batch
      → let (p', b', raised) =
          turn hooks p b (received m ∷ revokes (m.partition ∷ []) ∷ []) commits in
        (b'.output
          ≡ b.output ++ (hooks.handle (hooks.partitions_revoked p.state (m.partition ∷ [])) m).1)
        × (Dict.get b'.committed m.partition ≡ Dict.get b.committed m.partition)
  unfolding turn
  revoked_batch_committed p b m run room =
      rw (turn, collected p b m run room)
        (commit_after (on_revoke hooks (advanced p m) (m.partition ∷ [])) b m
          (hooks.partitions_revoked p.state (m.partition ∷ [])) m.partition
          (on_revoke-alone (advanced p m) m.partition))
