-- ===== src/Cleaner.antt =====
-- processors/cleaner.py: one duplicate filter for each partition, and what is produced for a raw
-- message.
pub mod Accounts
use wikistream_kafka.Prelude.{
  ℕ, ◌+◌, String, Bool, true, false, Option, none, some, List, [], ◌∷◌, nat_eq,
}
use wikistream_kafka.Dict
use wikistream_kafka.Dict.{Dict}
use wikistream_kafka.Models.{CleanEvent, page_key}
use wikistream_kafka.Dedup.{DedupCache, default_cache}
use wikistream_kafka.Parsing.{Library, Reason, Parsed, parsed, refused, raised}
use wikistream_kafka.Transform.{Outcome, clean, duplicate, rejected, skipped, transform}
use wikistream_kafka.Warmup.{Answers, Poll, WarmupResult, cache_warmer, warm}

-- A record of wiki.clean, or one of wiki.dlq with the place of the message.
pub data Produced : Type 0 where
  to_clean : String → CleanEvent → ℕ → Produced
  to_dlq : Reason → List ℕ → ℕ → ℕ → Produced

pub record Message : Type 0 where
  pub partition : ℕ
  pub offset : ℕ
  -- 0 when Kafka has none
  pub timestamp : ℕ
  pub value : List ℕ

pub record Cleaner : Type 0 where
  pub caches : Dict ℕ DedupCache
  pub produced : ℕ
  pub duplicates : ℕ
  pub skipped : ℕ
  pub rejected : ℕ
  -- the two counts of the rate meter
  pub marked : ℕ
  pub errors : ℕ

abbrev pub cleaner : Cleaner
cleaner = record {
  caches = [];
  produced = 0;
  duplicates = 0;
  skipped = 0;
  rejected = 0;
  marked = 0;
  errors = 0;
}

-- `cache_for`: the cache, which `setdefault` also stores
abbrev pub cache_for : Cleaner → ℕ → DedupCache
cache_for s p = Dict.get_or s.caches p default_cache

-- What `handle` does with an outcome.
unfoldable pub act : Cleaner → Message → Outcome → Cleaner × List Produced
act s m (clean e) = (
  record s { produced = s.produced + 1; marked = s.marked + 1 },
  to_clean (page_key e) e m.timestamp ∷ [],
)
act s m (duplicate event_id) = (record s { duplicates = s.duplicates + 1 }, [])
act s m (rejected reason payload) = (
  record s { rejected = s.rejected + 1; errors = s.errors + 1 },
  to_dlq reason payload m.partition m.offset ∷ [],
)
act s m (skipped reason) = (record s { skipped = s.skipped + 1 }, [])

unfoldable pub act_on : Cleaner → Message → Parsed Outcome → Parsed (Cleaner × List Produced)
act_on s m (parsed o) = parsed (act s m o)
act_on s m (refused r) = refused r
act_on s m (raised x) = raised x

-- `handle`; `raised` is an exception that ends the process.
unfoldable pub handle :
    Library → (String → Option ℕ) → Cleaner → Message → Parsed (Cleaner × List Produced)
handle lib event_ms s m =
    let (cache, result) =
      transform lib event_ms m.value (cache_for s m.partition) (some m.timestamp) in
    act_on (record s { caches = Dict.put s.caches m.partition cache }) m result

-- The loop of `Cleaner.warm` for one partition, given its committed offset.
unfoldable pub warmed : Library → Cleaner → ℕ → Option ℕ → Answers → List Poll → Parsed Cleaner
warmed lib s p committed answers polls =
    let held : Cleaner = record s { caches = Dict.put s.caches p (cache_for s p) } in
    elim committed [
      | none ↦ parsed held
      | some offset ↦ elim (warm lib cache_warmer answers offset polls (cache_for s p)) [
        | parsed x ↦ parsed (record s { caches = Dict.put s.caches p x.0 })
        | refused r ↦ refused r
        | raised x ↦ raised x
      ]
    ]

-- `partitions_revoked`
unfoldable pub revoked : Cleaner → List ℕ → Cleaner
revoked s [] = s
revoked s (p ∷ ps) = revoked (record s { caches = Dict.remove s.caches p }) ps
