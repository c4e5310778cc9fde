-- ===== src/Sinks/Storage.antt =====
-- sinks/postgres_sink.py: `PostgresSink`, from a topic to a table. Its parameters are the decoder, the
-- primary key of an event and its row: sinks/alerts_sink.py is the same sink over other ones.
use wikistream_kafka.Prelude.{
  ℕ, ◌+◌, ◌-◌, String, Bool, true, false, ◌&&◌, Option, none, some, List, [], ◌∷◌, ◌++◌, map,
  length, ltb, if◌then◌else◌, string_eq, nat_eq,
}
use wikistream_kafka.Dict
use wikistream_kafka.Dict.{Dict}
use wikistream_kafka.Sinks.{insert_rows, Answer, Ending, returned, gave_up, unanswered, write}

abbrev pub batch_size : ℕ
batch_size = 500

pub record Message : Type 0 where
  pub partition : ℕ
  pub offset : ℕ
  pub value : List ℕ

-- The sink's process, the table that it writes and the offsets of its group.
pub record PostgresSink (V : Type 0) : Type 0 where
  pub table : Dict String V
  pub committed : Dict ℕ ℕ
  -- where the consumer reads on in each of its partitions
  pub positions : Dict ℕ ℕ
  pub running : Bool
  pub inserted : ℕ
  pub skipped : ℕ
  -- the two counts of the meter
  pub marked : ℕ
  pub errors : ℕ
  pub reconnects : ℕ

-- A new process, on a table and offsets that are there.
abbrev pub started : {V : Type 0} → Dict String V → Dict ℕ ℕ → PostgresSink V
started table committed = record {
  table = table;
  committed = committed;
  positions = [];
  running = true;
  inserted = 0;
  skipped = 0;
  marked = 0;
  errors = 0;
  reconnects = 0;
}

-- What one `poll` brings: nothing; a message; an error that `check_consumer_error` passes over, or
-- raises; or a rebalance or a request to stop that is served meanwhile.
pub data Polled : Type 0 where
  nothing : Polled
  received : Message → Polled
  passing : Polled
  fatal : Polled
  assigned : List ℕ → Polled
  revoked : List ℕ → Polled
  stop_requested : Polled

-- Reading starts at the committed offset, or at the beginning of the partition.
unfoldable pub on_assign : Dict ℕ ℕ → Dict ℕ ℕ → List ℕ → Dict ℕ ℕ
on_assign committed positions [] = positions
on_assign committed positions (q ∷ partitions) =
    on_assign committed (Dict.put positions q (Dict.get_or committed q 0)) partitions

unfoldable pub on_revoke : Dict ℕ ℕ → List ℕ → Dict ℕ ℕ
on_revoke positions [] = positions
on_revoke positions (q ∷ partitions) = on_revoke (Dict.remove positions q) partitions

unfoldable pub stop : {V : Type 0} → PostgresSink V → PostgresSink V
stop s = record s { running = false }

module _ {V : Type 0} where
  unfoldable pub serve : PostgresSink V → Polled → PostgresSink V
  serve s nothing = s
  serve s (received m) = record s { positions = Dict.put s.positions m.partition (m.offset + 1) }
  serve s passing = s
  serve s fatal = s
  serve s (assigned qs) = record s { positions = on_assign s.committed s.positions qs }
  serve s (revoked qs) = record s { positions = on_revoke s.positions qs }
  serve s stop_requested = stop s

abbrev pub add_message : List Message → Polled → List Message
add_message batch (received m) = batch ++ m ∷ []
add_message batch nothing = batch
add_message batch passing = batch
add_message batch fatal = batch
add_message batch (assigned qs) = batch
add_message batch (revoked qs) = batch
add_message batch stop_requested = batch

abbrev pub is_fatal : Polled → Bool
is_fatal fatal = true
is_fatal nothing = false
is_fatal (received m) = false
is_fatal passing = false
is_fatal (assigned qs) = false
is_fatal (revoked qs) = false
is_fatal stop_requested = false

module _ {V : Type 0} where
  -- `collect_batch`, over what the polls bring until the deadline; whether it returns, and the batch.
  unfoldable pub collect_batch :
      PostgresSink V → List Message → List Polled → PostgresSink V × Bool × List Message
  collect_batch s batch [] = (s, true, batch)
  collect_batch s batch (polled ∷ rest) =
      let next = collect_batch (serve s polled) (add_message batch polled) rest in
      if s.running && ltb (length batch) batch_size
      then (if is_fatal polled then (s, false, batch) else next)
      else (s, true, batch)

-- The events of a batch; a record that cannot be read is logged and counted.
unfoldable pub decode_all : {E : Type 0} → (List ℕ → Option E) → List Message → List E
decode_all decode [] = []
decode_all decode (m ∷ batch) = elim (decode m.value) [
  | none ↦ decode_all decode batch
  | some e ↦ e ∷ decode_all decode batch
]

-- `commit` with no arguments: the positions of the assigned partitions
unfoldable pub commit_all : Dict ℕ ℕ → Dict ℕ ℕ → Dict ℕ ℕ
commit_all committed [] = committed
commit_all committed ((q, p) ∷ positions) = Dict.put (commit_all committed positions) q p

module _ {E V : Type 0} (decode : List ℕ → Option E) (key : E → String) (row : E → V) where
  abbrev pub rows_of : List E → List (String × V)
  rows_of = map (λ e. (key e, row e))

  -- The counters after a write, and the offsets if the commit succeeds; whether the process lives on.
  unfoldable pub after_write : PostgresSink V → List E → Ending → Bool → PostgresSink V × Bool
  after_write s events (returned written) commits =
      let counted : PostgresSink V = record s {
        inserted = s.inserted + written;
        skipped = s.skipped + (length events - written);
        marked = s.marked + length events;
      } in
      if commits
      then (record counted { committed = commit_all s.committed s.positions }, true)
      else (counted, false)
  after_write s events gave_up commits = (s, false)
  after_write s events unanswered commits = (s, false)

  -- Rows first, offsets second.
  unfoldable pub write_batch :
      PostgresSink V → List Message → List Answer → Bool → PostgresSink V × Bool
  write_batch s batch answers commits =
      let events = decode_all decode batch in
      let r = write (λ t. insert_rows t (rows_of events)) s.table s.reconnects answers in
      after_write
        (record s {
          table = r.table;
          reconnects = r.reconnects;
          errors = s.errors + (length batch - length events);
        })
        events r.ending commits

  -- `if batch: self.write_batch(batch)`, once `collect_batch` has returned
  unfoldable pub write_collected :
      PostgresSink V → Bool → List Message → List Answer → Bool → PostgresSink V × Bool
  write_collected s false batch answers commits = (s, false)
  write_collected s true [] answers commits = (s, true)
  write_collected s true (m ∷ batch) answers commits = write_batch s (m ∷ batch) answers commits

  -- One round of `run`, and whether the process lives on.
  unfoldable pub turn : PostgresSink V → List Polled → List Answer → Bool → PostgresSink V × Bool
  turn s polls answers commits =
      let (collected, returns, batch) = collect_batch s [] polls in
      write_collected collected returns batch answers commits
