-- ===== src/Lib.antt =====
-- A model of wikistream-kafka, whose processes read the recent changes of Wikipedia, pass them through
-- Kafka, derive from them the trending pages, the edit wars and a table of pages, store them in
-- PostgreSQL and show them on a dashboard, with theorems on what they keep, drop, write and commit.
--
-- The parts and how they interact. The ingestor reads the event stream and produces every event to
-- wiki.raw; its checkpoint file holds the id to resume from. The cleaner reads wiki.raw, drops
-- duplicates and produces wiki.clean. From wiki.clean the trending processor counts edits by page
-- and minute, and writes the closed minutes before it commits offsets; the edit war processor
-- raises alerts; the page state processor keeps wiki.page-latest. The sinks write wiki.clean and
-- wiki.alerts to PostgreSQL, and the dashboard reads the database, wiki.page-latest and the health of
-- the cluster.
--
--   Prelude      lists, Boolean tests, sets as lists and integers shared by all parts
--   Dict         a Python dict: an association list in the order of insertion
--   Offset       an offset or -1, the latter as `none`
--   Models       common/models.py: a clean event and its derived properties
--   Dedup        processors/dedup.py: DedupCache. Children: Memory (what a bucket holds after each
--                step), Window (copies inside the window), Novelty (ids never seen), Size (bounds)
--   EditWar      processors/edit_war_detector.py: EditWarDetector. Children: Order (reverts in the
--                order of their times), Alerts, Expire (forgetting pages), Quiet (after an alert)
--   Ingestor     ingestor/main.py and ingestor/checkpoint.py: DeliveryTracker and Checkpoint, with
--                Process for Ingestor itself. Children: Tracker, Release, Safety, Resume, Runs
--   Windows      processors/windows.py: MinuteWindows.add and the cap, with Close for pop_closed,
--                commit_offsets and revoke. Children: Cap, Commit, Counting, Exact, Runs, Reached,
--                Sealing, Popping, Once, Numbered, Partial (final flushes)
--                Handle (handle, and common/dlq.py), Loop (run and the exit code), File (the checkpoint
--                file), Reading, Kept, Through (no event is skipped)
--   Sinks        sinks/db.py, with Storage for sinks/postgres_sink.py. Children: Repeats (a write again),
--                Retries (lost connections), Recount, Cover, Stored, Exactly
--   Web          web/: Queries (the overview; child Series), Feeds (trending, wikis, edits, alerts; child
--                Paging), Pages (the page store; child Table), Cache (child Fresh), Cluster, App (the routes)
--   Config       common/config.py
--   Admin        admin/ and the waiting of common/topics.py. Children: Converges (topics), Backfill
--   Metrics      common/metrics.py
--   Sandbox      common/sandbox.py. Child: Apart (namespaces)
--   Sse          ingestor/sse.py. Children: Printed (a printed field is read back), Trip (a whole stream)
--   WarProcessor processors/edit_war.py. Child: Apart (partitions)
--   Retention    common/offsets.py. Child: Loss
--   Watchdog     common/topics.py: AssignmentWatchdog. Child: Strikes
--   Trending     processors/trending.py: what is written and committed. Child: Flushes
--   Parsing      common/models.py: a JSON value and the small readers; Clean has parse_raw and clean_event.
--                Children: Raises (exceptions), Valid (what an accepted event satisfies)
--   Transform    processors/transform.py. Child: Outcomes
--   Warmup       processors/warmup.py. Child: Replay (bounds, and what stays unknown)
--   Cleaner      processors/cleaner.py. Child: Accounts
--   Transactional processors/transactional.py: batches in transactions. Children: Batches (offsets in a
--                batch), Collecting, Exactly (committed messages), Lost (aborts and revoked partitions)
--   PageLatest   processors/page_latest.py: the record that an event makes of a page
--   PageState    processors/page_state.py: the guard and handle. Children: Guard, Compaction (what
--                Kafka may remove), Steps, Reached (any sequence of events), Latest
--   Tests        runs on concrete inputs, and an instance of each result
--
-- How the state corresponds. A class is a record with the fields of the class, a method a function
-- from the record to the new record and the result. A set is a list without repetition. Times in
-- milliseconds, offsets and sequence numbers are naturals. Where the source subtracts a width from
-- a time (`now_ms - window_ms`), the subtraction stops at 0: the times are epoch milliseconds, far
-- above every width, and no event lies before 1970. Python integers have no width, so nothing wraps
-- around. A value that the source leaves as None or -1 is an Option.
--
-- Loops. A loop over a collection is recursion on its list. The loop of `_enforce_cap` runs on fuel,
-- the number of open windows, which is enough since each round removes at least the oldest one. The loops that wait for a broker, the
-- database or the network run over the list of what happens in their rounds. The backfill runs on fuel;
-- one round for each row whose flag is unknown, and one more, is enough.
--
-- Parameters. The broker's answers, the clock, the SHA-256 digest, the text forms of times, the
-- JSON reader and writer, the text functions of Python and the search for revert phrases in a comment,
-- what the database and the group coordinator answer, and the collation of the database are arguments of the definitions that use them.
--
-- Not modelled: the HTTP, PostgreSQL and Kafka clients, signals, logging, reading the environment, the
-- JSON text of records, the HTTP framework and the connection pool of the web backend, the frontend, and the
-- scripts, which are I/O or reports around the parts above. What a SQL text of the source selects,
-- groups, orders and limits is a function on the list of rows.
-- Left out besides: the ValueError or RecursionError of json.loads on a very long integer or a deeply
-- nested text, a KafkaException that produce() itself raises, and a DedupCache of no buckets, whose
-- first call would divide by zero. The removal of a tombstone that is the last record of its page is
-- modelled for the page table only: the guard of the page state processor forgets the page then.
mod Prelude
pub mod Dict
pub mod Offset
pub mod Models
pub mod Dedup
pub mod Parsing
pub mod Transform
pub mod Warmup
pub mod Cleaner
pub mod PageLatest
pub mod PageState
pub mod Transactional
pub mod EditWar
pub mod Ingestor
pub mod Windows
pub mod Retention
pub mod Watchdog
pub mod Trending
pub mod WarProcessor
pub mod Sse
pub mod Sinks
pub mod Web
pub mod Config
pub mod Admin
pub mod Metrics
pub mod Sandbox
mod Tests
