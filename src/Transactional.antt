-- ===== src/Transactional.antt =====
-- processors/transactional.py: the loop that consumes, handles and produces in transactions.
--
-- The subclass is the three hooks. A partition of the consumer's assignment is an entry of
-- `positions`, with the offset of the next record that `poll` will return; an offset here counts the
-- records of its partition. The rebalance protocol is the cooperative one, the default.
pub mod Batches
pub mod Collecting
pub mod Exactly
pub mod Lost
use wikistream_kafka.Prelude.{
  ℕ, ◌+◌, Bool, true, false, not, ◌||◌, Option, none, some, List, [], ◌∷◌, ◌++◌, take, length, leb,
  nat_eq, if◌then◌else◌,
}
use wikistream_kafka.Dict
use wikistream_kafka.Dict.{Dict}

abbrev pub max_batch_default : ℕ
max_batch_default = 2000

pub record Message (V : Type 0) : Type 0 where
  pub partition : ℕ
  pub offset : ℕ
  pub value : V

-- What subclasses supply.
pub record Hooks (S V Out : Type 0) : Type 0 where
  pub handle : S → Message V → S × List Out
  -- the partitions, each with its committed offset if it has one
  pub partitions_assigned : S → Dict ℕ (Option ℕ) → S
  pub partitions_revoked : S → List ℕ → S

pub record Processor (S : Type 0) : Type 0 where
  pub state : S
  pub positions : Dict ℕ ℕ
  pub running : Bool
  pub in_transaction : Bool
  pub max_batch : ℕ

-- The group's committed offsets, and what read_committed consumers see of the output.
pub record Broker (Out : Type 0) : Type 0 where
  pub committed : Dict ℕ ℕ
  pub output : List Out

-- What one `poll` of `collect_batch` does: nothing, an error that the client retries, a record, or a
-- call back of `on_assign`, `on_revoke` or of the signal handler.
pub data Poll (V : Type 0) : Type 0 where
  nothing : Poll V
  retried : Poll V
  received : Message V → Poll V
  assigns : List ℕ → Poll V
  revokes : List ℕ → Poll V
  signal : Poll V

-- How a transaction ends: with the commit, or with an error that asks for an abort after so many
-- messages, or with another error.
pub data Ending : Type 0 where
  commits : Ending
  requires_abort : ℕ → Ending
  fails : ℕ → Ending

module _ {S V Out : Type 0} (hooks : Hooks S V Out) where
  -- `stop`
  unfoldable pub stop : Processor S → Processor S
  stop p = record p { running = false }

  -- `_abort`; a failure of the abort is logged and ignored
  unfoldable pub abort : Processor S → Processor S
  abort p = record p { in_transaction = false }

  -- The consumer starts at the committed offset, or at the start of the partition.
  unfoldable pub take_partitions : Dict ℕ ℕ → Dict ℕ ℕ → List ℕ → Dict ℕ ℕ
  take_partitions committed positions [] = positions
  take_partitions committed positions (q ∷ qs) =
      take_partitions committed (Dict.put positions q (Dict.get_or committed q 0)) qs

  unfoldable pub release_partitions : Dict ℕ ℕ → List ℕ → Dict ℕ ℕ
  release_partitions positions [] = positions
  release_partitions positions (q ∷ qs) = release_partitions (Dict.remove positions q) qs

  unfoldable pub committed_of : Dict ℕ ℕ → List ℕ → Dict ℕ (Option ℕ)
  committed_of committed [] = []
  committed_of committed (q ∷ qs) = (q, Dict.get committed q) ∷ committed_of committed qs

  unfoldable pub on_assign : Processor S → Broker Out → List ℕ → Processor S
  on_assign p b qs = record p {
    positions = take_partitions b.committed p.positions qs;
    state = hooks.partitions_assigned p.state (committed_of b.committed qs);
  }

  unfoldable pub on_revoke : Processor S → List ℕ → Processor S
  on_revoke p qs =
      let p' = if p.in_transaction then abort p else p in
      record p' {
        state = hooks.partitions_revoked p'.state qs;
        positions = release_partitions p'.positions qs;
      }

  -- One `poll`, and the batch after it.
  unfoldable pub polled :
      Processor S → Broker Out → List (Message V) → Poll V → Processor S × List (Message V)
  polled p b batch nothing = (p, batch)
  polled p b batch retried = (p, batch)
  polled p b batch (received m) =
      (record p { positions = Dict.put p.positions m.partition (m.offset + 1) }, batch ++ m ∷ [])
  polled p b batch (assigns qs) = (on_assign p b qs, batch)
  polled p b batch (revokes qs) = (on_revoke p qs, batch)
  polled p b batch signal = (stop p, batch)

  -- The loop of `collect_batch`, over the polls that are made before the deadline.
  unfoldable pub collect_from :
      Processor S → Broker Out → List (Message V) → List (Poll V) → Processor S × List (Message V)
  collect_from p b batch [] = (p, batch)
  collect_from p b batch (x ∷ polls) =
      let (p', batch') = polled p b batch x in
      let rest = collect_from p' b batch' polls in
      if not p.running || leb p.max_batch (length batch) then (p, batch) else rest

  unfoldable pub collect_batch :
      Processor S → Broker Out → List (Poll V) → Processor S × List (Message V)
  collect_batch p b polls = collect_from p b [] polls

  -- The loop over the batch: the state and the output of all messages.
  unfoldable pub handle_all : S → List (Message V) → List Out → S × List Out
  handle_all s [] out = (s, out)
  handle_all s (m ∷ batch) out =
      let (s', more) = hooks.handle s m in handle_all s' batch (out ++ more)

  -- The offsets that a commit sends: the position of every assigned partition.
  unfoldable pub send_offsets : Dict ℕ ℕ → Dict ℕ ℕ → Dict ℕ ℕ
  send_offsets committed [] = committed
  send_offsets committed ((q, n) ∷ positions) = Dict.put (send_offsets committed positions) q n

  -- The result tells whether an exception leaves `process_batch`, which ends the process.
  unfoldable pub process_batch :
      Processor S → Broker Out → List (Message V) → Ending → Processor S × Broker Out × Bool
  process_batch p b batch commits =
      let (s, out) = handle_all p.state batch [] in
      (
        record p { state = s; in_transaction = false },
        record { committed = send_offsets b.committed p.positions; output = b.output ++ out },
        false,
      )
  process_batch p b batch (requires_abort n) =
      let (s, out) = handle_all p.state (take n batch) [] in
      (abort (record p { state = s; in_transaction = true }), b, false)
  process_batch p b batch (fails n) =
      let (s, out) = handle_all p.state (take n batch) [] in
      (record p { state = s; in_transaction = true }, b, true)

  unfoldable pub shutdown : Processor S → Processor S
  shutdown p = record (if p.in_transaction then abort p else p) { positions = [] }

  -- `if batch: self.process_batch(batch)`
  unfoldable pub process_any :
      Processor S → Broker Out → List (Message V) → Ending → Processor S × Broker Out × Bool
  process_any p b [] ending = (p, b, false)
  process_any p b (m ∷ batch) ending = process_batch p b (m ∷ batch) ending

  -- One round of the loop of `run`.
  unfoldable pub turn :
      Processor S → Broker Out → List (Poll V) → Ending → Processor S × Broker Out × Bool
  turn p b polls ending = let (p', batch) = collect_batch p b polls in process_any p' b batch ending
