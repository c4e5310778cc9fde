-- ===== src/Sinks/Stored.antt =====
-- sinks/postgres_sink.py: the invariant of the sink, and the polls that keep it.
use wikistream_kafka.Prelude.{
  ℕ, ◌≡◌, refl, inl, inr, String, false, ◌&&◌, Option, some, List, [], ◌∷◌, length, ltb, All,
  All-append, string_eq, nat_eq, Option-cases, Bool-cases,
}
use wikistream_kafka.Dict
use wikistream_kafka.Dict.{Dict, All-put, Distinct, put-Distinct}
use wikistream_kafka.Sinks.{insert_row}
use wikistream_kafka.Sinks.Repeats.{put_rows}
use wikistream_kafka.Sinks.Storage.{
  Message, PostgresSink, Polled, nothing, received, passing, fatal, assigned, revoked,
  stop_requested, serve, stop, add_message, is_fatal, collect_batch, decode_all, rows_of,
  batch_size,
}
use wikistream_kafka.Sinks.Cover.{
  AllCovered, Justified, FromTopic, NextIn, received-AllCovered, on_assign-AllCovered,
  on_revoke-AllCovered,
}

module _ {E V : Type 0} (decode : List ℕ → Option E) (key : E → String) (row : E → V)
    (log : ℕ → ℕ → Option (List ℕ)) where
  -- The table has no row but those of the topic's events, and one for each id.
  abbrev pub IsSound : Dict String V → Type 0
  IsSound table = All (Justified decode key row log) table × Distinct table

  pub record Stored (s : PostgresSink V) (batch : List Message) : Type 0 where
    pub reading : AllCovered decode key row log s.table batch s.positions
    pub stored : AllCovered decode key row log s.table [] s.committed
    pub sound : IsSound s.table
    pub from_topic : FromTopic decode key row log batch

  -- Messages arrive in the order of their partition.
  abbrev pub ExpectedPolls : PostgresSink V → List Polled → Type 0
  ExpectedPolls s [] = Unit
  ExpectedPolls s (received m ∷ rest) =
      NextIn decode key row log s.positions m × ExpectedPolls (serve s (received m)) rest
  ExpectedPolls s (nothing ∷ rest) = ExpectedPolls s rest
  ExpectedPolls s (passing ∷ rest) = ExpectedPolls s rest
  ExpectedPolls s (fatal ∷ rest) = Unit
  ExpectedPolls s (assigned qs ∷ rest) = ExpectedPolls (serve s (assigned qs)) rest
  ExpectedPolls s (revoked qs ∷ rest) = ExpectedPolls (serve s (revoked qs)) rest
  ExpectedPolls s (stop_requested ∷ rest) = ExpectedPolls (stop s) rest

  insert_row-IsSound :
      (table : Dict String V) (e : E) (m : Message)
      → log m.partition m.offset ≡ some m.value
      → decode m.value ≡ some e
      → IsSound table
      → IsSound (insert_row table (key e, row e))
  unfolding insert_row
  insert_row-IsSound table e m there read (just, apart) =
      elim (Option-cases (Dict.get table (key e))) [
        | inl new ↦
            rw (new, insert_row)
              (
                All-put (Justified decode key row log) table (key e) (row e) just
                    (m.partition, m.offset, m.value, e, there, read, refl, refl),
                put-Distinct table (key e) (row e) apart,
              )
        | inr (v, old) ↦ rw (old, insert_row) (just, apart)
      ]

  pub put_rows-IsSound :
      (batch : List Message) (table : Dict String V)
      → FromTopic decode key row log batch
      → IsSound table
      → IsSound (put_rows table (rows_of decode key row (decode_all decode batch)))
  unfolding decode_all put_rows
  put_rows-IsSound [] table from h = h
  put_rows-IsSound (m ∷ batch) table (there, from) h = elim (Option-cases (decode m.value)) [
    | inl bad ↦ rw (bad, decode_all) (put_rows-IsSound batch table from h)
    | inr (e, read) ↦
        rw (read, decode_all)
          (put_rows-IsSound batch (insert_row table (key e, row e)) from
            (insert_row-IsSound table e m there read h))
  ]

  pub serve-Stored :
      (s : PostgresSink V) (batch : List Message) (polled : Polled) (rest : List Polled)
      → ExpectedPolls s (polled ∷ rest)
      → Stored s batch
      → Stored (serve s polled) (add_message batch polled)
  unfolding serve stop
  serve-Stored s batch nothing rest x h = h
  serve-Stored s batch passing rest x h = h
  serve-Stored s batch fatal rest x h = h
  serve-Stored s batch stop_requested rest x h = record {
    reading = h.reading;
    stored = h.stored;
    sound = h.sound;
    from_topic = h.from_topic;
  }
  serve-Stored s batch (received m) rest (next, x) h = record {
    reading = received-AllCovered decode key row log s.table batch s.positions m next h.reading;
    stored = h.stored;
    sound = h.sound;
    from_topic = All-append _ batch (m ∷ []) h.from_topic (next.3, tt);
  }
  serve-Stored s batch (assigned qs) rest x h = record {
    reading =
        on_assign-AllCovered decode key row log s.table batch s.committed qs s.positions h.stored
          h.reading;
    stored = h.stored;
    sound = h.sound;
    from_topic = h.from_topic;
  }
  serve-Stored s batch (revoked qs) rest x h = record {
    reading = on_revoke-AllCovered decode key row log s.table batch qs s.positions h.reading;
    stored = h.stored;
    sound = h.sound;
    from_topic = h.from_topic;
  }

  still_expected :
      (s : PostgresSink V) (polled : Polled) (rest : List Polled)
      → is_fatal polled ≡ false
      → ExpectedPolls s (polled ∷ rest)
      → ExpectedPolls (serve s polled) rest
  unfolding serve
  still_expected s nothing rest h x = x
  still_expected s passing rest h x = x
  still_expected s fatal rest h x = absurd (cc)
  still_expected s (received m) rest h x = x.1
  still_expected s (assigned qs) rest h x = x
  still_expected s (revoked qs) rest h x = x
  still_expected s stop_requested rest h x = x

  pub collect_batch-Stored :
      (polls : List Polled) (s : PostgresSink V) (batch : List Message)
      → ExpectedPolls s polls
      → Stored s batch
      → let (collected, returns, all) = collect_batch s batch polls in Stored collected all
  unfolding collect_batch
  collect_batch-Stored [] s batch x h = h
  collect_batch-Stored (polled ∷ rest) s batch x h =
      elim (Bool-cases (s.running && ltb (length batch) batch_size)) [
        | inr full ↦ rw full h
        | inl room ↦ elim (Bool-cases (is_fatal polled)) [
          | inl raises ↦ rw (room, raises) h
          | inr goes_on ↦
              rw (room, goes_on)
                (collect_batch-Stored rest (serve s polled) (add_message batch polled)
                  (still_expected s polled rest goes_on x) (serve-Stored s batch polled rest x h))
        ]
      ]
