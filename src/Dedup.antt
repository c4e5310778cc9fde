-- ===== src/Dedup.antt =====
-- processors/dedup.py: the event ids seen on one partition, held in buckets of time.
--
-- Times are milliseconds since 1970 and natural numbers. `expire` subtracts, and stops at 0 where
-- Python goes below it: no bucket lies before either, so its test answers the same.
pub mod Size
pub mod Memory
pub mod Novelty
pub mod Window
use wikistream_kafka.Prelude.{
  ℕ, suc, ◌+◌, ◌-◌, ◌*◌, ◌/◌, max, String, Bool, true, false, ◌&&◌, not, List, [], ◌∷◌, nat_eq,
  string_eq, contains, insert, ltb, if◌then◌else◌, length, filter, any,
}
use wikistream_kafka.Dict
use wikistream_kafka.Dict.{Dict, keys, values}
use wikistream_kafka.Dict.Bulk.{delete_all}

abbrev pub hour_ms : ℕ
hour_ms = 60 * 60 * 1000

-- An `OrderedDict` from bucket number to a set of ids, oldest entry first.
abbrev pub Buckets : Type 0
Buckets = Dict ℕ (List String)

pub record DedupCache : Type 0 where
  pub window_ms : ℕ
  pub buckets_in_window : ℕ
  pub max_ids : ℕ
  pub buckets : Buckets
  pub seen_count : ℕ
  pub duplicate_count : ℕ
  pub evicted_early : ℕ

-- `DedupCache(window_ms, buckets, max_ids)`
abbrev pub dedup_cache : ℕ → ℕ → ℕ → DedupCache
dedup_cache window_ms buckets_in_window max_ids = record {
  window_ms = window_ms;
  buckets_in_window = buckets_in_window;
  max_ids = max_ids;
  buckets = [];
  seen_count = 0;
  duplicate_count = 0;
  evicted_early = 0;
}

-- `DedupCache()`
abbrev pub default_cache : DedupCache
default_cache = dedup_cache hour_ms 12 500000

unfoldable pub bucket_span_ms : DedupCache → ℕ
bucket_span_ms c = max (c.window_ms / c.buckets_in_window) 1

-- The sum of the sizes of all buckets.
unfoldable pub total : Buckets → ℕ
total [] = 0
total ((i, ids) ∷ rest) = length ids + total rest

-- the property `size`
abbrev pub size : DedupCache → ℕ
size c = total c.buckets

-- the numbers of the buckets that are older than the window
abbrev pub expired : ℕ → Buckets → List ℕ
expired cutoff b = filter (λ i. ltb i cutoff) (keys b)

abbrev pub cutoff_at : DedupCache → ℕ → ℕ
cutoff_at c now_ms = (now_ms - c.window_ms) / bucket_span_ms c

unfoldable pub expire : DedupCache → ℕ → DedupCache
expire c now_ms = record c {
  buckets = delete_all c.buckets (expired (cutoff_at c now_ms) c.buckets);
}

-- The `for` loop of `is_new`: whether some bucket holds the id.
unfoldable pub remembers : Buckets → String → Bool
remembers b event_id = any (λ ids. contains ids event_id) (values b)

-- The loop of `_enforce_size`: `popitem(last=False)` takes the first entry.
unfoldable pub trim : ℕ → Buckets → ℕ → Buckets × ℕ
trim max_ids [] evicted = ([], evicted)
trim max_ids (b ∷ []) evicted = (b ∷ [], evicted)
trim max_ids (b ∷ b' ∷ rest) evicted =
    let dropped = trim max_ids (b' ∷ rest) (evicted + length b.1) in
    if ltb max_ids (total (b ∷ b' ∷ rest)) then dropped else (b ∷ b' ∷ rest, evicted)

unfoldable pub enforce_size : DedupCache → DedupCache
enforce_size c =
    let (b, evicted) = trim c.max_ids c.buckets c.evicted_early in
    record c { buckets = b; evicted_early = evicted }

-- `self._buckets.setdefault(index, set()).add(event_id)`
unfoldable pub record_id : DedupCache → String → ℕ → DedupCache
record_id c event_id event_time_ms =
    let index = event_time_ms / bucket_span_ms c in
    record c {
      buckets = Dict.put c.buckets index (insert (Dict.get_or c.buckets index []) event_id);
    }

unfoldable pub is_new : DedupCache → String → ℕ → DedupCache × Bool
is_new c event_id event_time_ms =
    let c' = expire (record c { seen_count = c.seen_count + 1 }) event_time_ms in
    if remembers c'.buckets event_id
    then (record c' { duplicate_count = c'.duplicate_count + 1 }, false)
    else (enforce_size (record_id c' event_id event_time_ms), true)

unfoldable pub clear : DedupCache → DedupCache
clear c = record c { buckets = [] }

pub record Stats : Type 0 where
  pub ids : ℕ
  pub seen : ℕ
  pub duplicates : ℕ
  pub evicted_early : ℕ

unfoldable pub stats : DedupCache → Stats
stats c = record {
  ids = size c;
  seen = c.seen_count;
  duplicates = c.duplicate_count;
  evicted_early = c.evicted_early;
}
