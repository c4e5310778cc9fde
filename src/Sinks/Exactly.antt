-- ===== src/Sinks/Exactly.antt =====
-- sinks/postgres_sink.py: exactly once in the table, through crashes, lost connections and rebalances.
use wikistream_kafka.Prelude.{
  ℕ, ◌+◌, ◌-◌, ◌<◌, ◌≡◌, refl, sym, subst, ◌∙◌, ◌⊎◌, inl, inr, String, Bool, true, false, Option,
  some, List, [], ◌∷◌, length, All, string_eq, nat_eq, arith,
}
use wikistream_kafka.Dict
use wikistream_kafka.Dict.{Dict, Distinct}
use wikistream_kafka.Sinks.{insert_rows, Answer, Ending, returned, gave_up, unanswered, write}
use wikistream_kafka.Sinks.Repeats.{put_rows, table-insert_rows, insert_rows_again}
use wikistream_kafka.Sinks.Retries.{write_once}
use wikistream_kafka.Sinks.Storage.{
  Message, PostgresSink, started, Polled, collect_batch, decode_all, rows_of, after_write,
  write_batch, write_collected, turn,
}
use wikistream_kafka.Sinks.Cover.{
  AllCovered, Justified, committed-AllCovered, grown-AllCovered, written-AllCovered,
}
use wikistream_kafka.Sinks.Stored.{
  IsSound, Stored, ExpectedPolls, put_rows-IsSound, collect_batch-Stored,
}

module _ {E V : Type 0} (decode : List ℕ → Option E) (key : E → String) (row : E → V)
    (log : ℕ → ℕ → Option (List ℕ)) where
  -- What outlives a crash: the table and the committed offsets.
  record Durable (table : Dict String V) (committed : Dict ℕ ℕ) : Type 0 where
    stored : AllCovered decode key row log table [] committed
    sound : IsSound decode key row log table

  after_write-Durable :
      (s : PostgresSink V) (events : List E) (ending : Ending) (commits : Bool)
      → ((n : ℕ) → ending ≡ returned n → AllCovered decode key row log s.table [] s.positions)
      → Durable s.table s.committed
      → let s' = (after_write decode key row s events ending commits).0 in
        Durable s'.table s'.committed
  unfolding after_write
  after_write-Durable s events (returned n) true covered h = record {
    stored =
        committed-AllCovered decode key row log s.table s.committed s.positions h.stored
          (covered n refl);
    sound = h.sound;
  }
  after_write-Durable s events (returned n) false covered h = h
  after_write-Durable s events gave_up commits covered h = h
  after_write-Durable s events unanswered commits covered h = h

  -- While the process lives, what it has read is in the table at the end of a batch.
  after_write-Stored :
      (s : PostgresSink V) (events : List E) (ending : Ending) (commits : Bool)
      → ((n : ℕ) → ending ≡ returned n → AllCovered decode key row log s.table [] s.positions)
      → Durable s.table s.committed
      → let (s', alive) = after_write decode key row s events ending commits in
        alive ≡ true → Stored decode key row log s' []
  unfolding after_write
  after_write-Stored s events (returned n) true covered h alive = record {
    reading = covered n refl;
    stored = (after_write-Durable s events (returned n) true covered h).stored;
    sound = h.sound;
    from_topic = tt;
  }
  after_write-Stored s events (returned n) false covered h alive = absurd (cc)
  after_write-Stored s events gave_up commits covered h alive = absurd (cc)
  after_write-Stored s events unanswered commits covered h alive = absurd (cc)

  -- The rows reach the table whole or not at all; when the write returns, they are there.
  written-Durable :
      (s : PostgresSink V) (batch : List Message) (table : Dict String V)
      → (table ≡ s.table)
        ⊎ (table ≡ put_rows s.table (rows_of decode key row (decode_all decode batch)))
      → Stored decode key row log s batch
      → Durable table s.committed
  written-Durable s batch table (inl same) h = record {
    stored = rw same h.stored;
    sound = rw same h.sound;
  }
  written-Durable s batch table (inr whole) h =
      let rows = rows_of decode key row (decode_all decode batch) in
      record {
        stored =
            rw whole (grown-AllCovered decode key row log s.table rows [] s.committed h.stored);
        sound = rw whole (put_rows-IsSound decode key row log batch s.table h.from_topic h.sound);
      }

  write_batch-Kept :
      (s : PostgresSink V) (batch : List Message) (answers : List Answer) (commits : Bool)
      → Stored decode key row log s batch
      → let (s', alive) = write_batch decode key row s batch answers commits in
        Durable s'.table s'.committed × (alive ≡ true → Stored decode key row log s' [])
  unfolding write_batch
  write_batch-Kept s batch answers commits h =
      let events = decode_all decode batch in
      let rows = rows_of decode key row events in
      let operation = λ (t : Dict String V). insert_rows t rows in
      let r = write operation s.table s.reconnects answers in
      let once =
        write_once operation (λ t. insert_rows_again t rows) s.table s.reconnects answers in
      let whole : (operation s.table).table ≡ put_rows s.table rows =
        table-insert_rows s.table rows in
      let possible : (r.table ≡ s.table) ⊎ (r.table ≡ put_rows s.table rows) = elim once.0 [
        | inl e ↦ inl e
        | inr e ↦ inr (e ∙ whole)
      ] in
      let covered : (n : ℕ)
          → r.ending ≡ returned n
          → AllCovered decode key row log r.table [] s.positions =
        λ n e.
          subst (λ (t : Dict String V). AllCovered decode key row log t [] s.positions)
            (sym (once.1 n e ∙ whole))
            (written-AllCovered decode key row log s.table batch s.positions h.reading) in
      let durable = written-Durable s batch r.table possible h in
      let s' : PostgresSink V = record s {
        table = r.table;
        reconnects = r.reconnects;
        errors = s.errors + (length batch - length events);
      } in
      (
        after_write-Durable s' events r.ending commits covered durable,
        after_write-Stored s' events r.ending commits covered durable,
      )

  write_collected-Kept :
      (c : PostgresSink V) (returns : Bool) (batch : List Message) (answers : List Answer)
      (commits : Bool)
      → Stored decode key row log c batch
      → let (s', alive) = write_collected decode key row c returns batch answers commits in
        Durable s'.table s'.committed × (alive ≡ true → Stored decode key row log s' [])
  unfolding write_collected
  write_collected-Kept c false batch answers commits h =
      (record { stored = h.stored; sound = h.sound }, λ alive. absurd (cc))
  write_collected-Kept c true [] answers commits h =
      (record { stored = h.stored; sound = h.sound }, λ alive. h)
  write_collected-Kept c true (m ∷ batch) answers commits h =
      write_batch-Kept c (m ∷ batch) answers commits h

  turn-Kept :
      (s : PostgresSink V) (polls : List Polled) (answers : List Answer) (commits : Bool)
      → ExpectedPolls decode key row log s polls
      → Stored decode key row log s []
      → let (s', alive) = turn decode key row s polls answers commits in
        Durable s'.table s'.committed × (alive ≡ true → Stored decode key row log s' [])
  unfolding turn
  turn-Kept s polls answers commits x h =
      let (collected, returns, batch) = collect_batch s [] polls in
      write_collected-Kept collected returns batch answers commits
        (collect_batch-Stored decode key row log polls s [] x h)

  -- What the sink does on an empty table, process after process: each round, and a new process after
  -- a round that killed the last one, or at any other time. The flag says whether a process lives.
  pub data Run : PostgresSink V → Bool → Type 0 where
    start : Run (started [] []) true
    round :
        {s : PostgresSink V}
        → Run s true
        → (polls : List Polled) (answers : List Answer) (commits : Bool)
        → ExpectedPolls decode key row log s polls
        → Run
            (turn decode key row s polls answers commits).0
            (turn decode key row s polls answers commits).1
    restart :
        {s : PostgresSink V} {alive : Bool} → Run s alive → Run (started s.table s.committed) true

  nothing_read :
      (table : Dict String V) (batch : List Message) → AllCovered decode key row log table batch []
  unfolding Dict.get
  nothing_read table batch q p g = absurd (ground arith)

  Run-Kept :
      {s : PostgresSink V} {alive : Bool}
      → Run s alive
      → Durable s.table s.committed × (alive ≡ true → Stored decode key row log s [])
  Run-Kept start = (
    record { stored = nothing_read [] []; sound = (tt, tt) },
    λ alive. record {
      reading = nothing_read [] [];
      stored = nothing_read [] [];
      sound = (tt, tt);
      from_topic = tt;
    },
  )
  Run-Kept (round {s} r polls answers commits x) =
      turn-Kept s polls answers commits x ((Run-Kept r).1 refl)
  Run-Kept (restart {s} {alive} r) =
      let d = (Run-Kept r).0 in
      (
        d,
        λ a. record {
          reading = nothing_read s.table [];
          stored = d.stored;
          sound = d.sound;
          from_topic = tt;
        },
      )

  -- At every moment of the sink's life, through lost connections, crashes between the rows and the
  -- offsets and rebalances: every readable event below the committed offset of its partition has a
  -- row under its id, no id has two rows, and every row is that of an event of the topic.
  pub stored_once :
      {s : PostgresSink V} {alive : Bool}
      → Run s alive
      → ((q p o : ℕ) (value : List ℕ) (e : E)
          → Dict.get s.committed q ≡ some p
          → o < p
          → log q o ≡ some value
          → decode value ≡ some e
          → (v : V) × (Dict.get s.table (key e) ≡ some v))
        × Distinct s.table
        × All (Justified decode key row log) s.table
  stored_once {s} r =
      let d = (Run-Kept r).0 in
      (
        λ q p o value e at lt l read. elim (d.stored q p at o value e lt l read) [
          | inl t ↦ t
          | inr w ↦ absurd w.1
        ],
        d.sound.1,
        d.sound.0,
      )
