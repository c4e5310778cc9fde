-- ===== src/Tests/Deduplication.antt =====
-- processors/dedup.py on small inputs.
use wikistream_kafka.Prelude.{
  ◌≡◌, refl, inl, true, false, [], ◌∷◌, contains, insert, filter, any, arith,
}
use wikistream_kafka.Dict
use wikistream_kafka.Dict.Bulk.{delete_all}
use wikistream_kafka.Dedup.{
  DedupCache, dedup_cache, bucket_span_ms, total, expire, remembers, trim, enforce_size, record_id,
  is_new,
}
use wikistream_kafka.Dedup.Size.{IsBounded, IsCounted, is_new-IsBounded}
use wikistream_kafka.Dedup.Window.{feed, duplicate_dropped}
use wikistream_kafka.Dedup.Novelty.{new_passes}

program : Unit {0}
unfolding contains insert filter any Dict.get Dict.put Dict.remove Dict.get_or delete_all
    bucket_span_ms total expire remembers trim enforce_size record_id is_new feed
program = tt

-- A window of a minute in six buckets, for at most two ids.
abbrev cache : DedupCache
cache = dedup_cache 60000 6 2

-- A third id in a later bucket pushes the oldest bucket out.
evicts : (feed cache (("a", 1000) ∷ ("b", 12000) ∷ ("c", 25000) ∷ [])).evicted_early ≡ 1
unfolding program
evicts = refl

-- A minute and two buckets later the id is forgotten.
forgets : (is_new (feed cache (("a", 1000) ∷ [])) "a" 80000).1 ≡ true
unfolding program
forgets = refl

duplicate_dropped_example :
    (is_new (feed (is_new cache "a" 1000).0 (("b", 30000) ∷ [])) "a" 61000).1 ≡ false
unfolding program
duplicate_dropped_example =
    duplicate_dropped cache "a" 1000 61000 (("b", 30000) ∷ []) refl (omega arith, tt) refl
      (omega arith)

new_passes_example :
    (is_new (feed (dedup_cache 60000 6 2) (("a", 1000) ∷ ("b", 2000) ∷ [])) "c" 500).1 ≡ true
unfolding program
new_passes_example = new_passes 60000 6 2 (("a", 1000) ∷ ("b", 2000) ∷ []) "c" 500 refl

cache-IsBounded : IsBounded cache
unfolding total
cache-IsBounded = record { small = inl (omega arith); accounts = omega arith }

is_new-IsBounded_example :
    IsBounded (is_new cache "a" 1000).0
    × IsCounted cache (is_new cache "a" 1000).0 (is_new cache "a" 1000).1
is_new-IsBounded_example = is_new-IsBounded cache "a" 1000 cache-IsBounded
