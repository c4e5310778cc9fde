-- ===== src/Dedup/Size.antt =====
-- processors/dedup.py: the bound on the number of ids, and what the counters say.
use wikistream_kafka.Prelude.{
  ℕ, ◌+◌, ◌/◌, ◌≤◌, ◌≡◌, refl, ◌⊎◌, inl, inr, String, List, [], ◌∷◌, arith, nat_eq, string_eq,
  contains, insert, length, Bool-cases, Bool, if◌then◌else◌,
}
use wikistream_kafka.Dict
use wikistream_kafka.Dict.{Dict, keys}
use wikistream_kafka.Dict.Bulk.{delete_all, length-delete_all-le}
use wikistream_kafka.Dedup.{
  Buckets, DedupCache, total, size, expired, cutoff_at, expire, remembers, trim, enforce_size,
  record_id, is_new, bucket_span_ms,
}

-- The loop ends with few enough ids or with a single bucket.
trim_bound :
    (max_ids : ℕ) (b : Buckets) (evicted : ℕ)
    → (total (trim max_ids b evicted).0 ≤ max_ids) ⊎ (length (trim max_ids b evicted).0 ≤ 1)
unfolding trim total
trim_bound max_ids [] evicted = inr (omega arith)
trim_bound max_ids (b ∷ []) evicted = inr (omega arith)
trim_bound max_ids (b ∷ b' ∷ rest) evicted =
    ground (arith, trim_bound max_ids (b' ∷ rest) (evicted + length b.1))

-- What it drops it counts.
trim_count :
    (max_ids : ℕ) (b : Buckets) (evicted : ℕ)
    → total (trim max_ids b evicted).0 + (trim max_ids b evicted).1 ≡ total b + evicted
unfolding trim total
trim_count max_ids [] evicted = refl
trim_count max_ids (b ∷ []) evicted = refl
trim_count max_ids (b ∷ b' ∷ rest) evicted =
    ground (arith, trim_count max_ids (b' ∷ rest) (evicted + length b.1))

total-remove-le : (b : Buckets) (i : ℕ) → total (Dict.remove b i) ≤ total b
unfolding total Dict.remove
total-remove-le [] i = omega arith
total-remove-le ((j, ids) ∷ b) i = ground (arith, total-remove-le b i)

total-delete_all-le : (b : Buckets) (is : List ℕ) → total (delete_all b is) ≤ total b
unfolding delete_all
total-delete_all-le b [] = omega arith
total-delete_all-le b (i ∷ is) =
    omega (arith, total-delete_all-le (Dict.remove b i) is, total-remove-le b i)

length-insert-le : (ids : List String) (x : String) → length (insert ids x) ≤ length ids + 1
unfolding insert
length-insert-le ids x = ground arith

total-put-le :
    (b : Buckets) (i : ℕ) (x : String)
    → total (Dict.put b i (insert (Dict.get_or b i []) x)) ≤ total b + 1
unfolding total Dict.put Dict.get_or Dict.get insert contains
total-put-le [] i x = ground arith
total-put-le ((j, ids) ∷ b) i x = ground (arith, total-put-le b i x)

-- What each part of `is_new` does to the size and to the counters.
record SameCounts (c d : DedupCache) : Type 0 where
  limit : d.max_ids ≡ c.max_ids
  seen : d.seen_count ≡ c.seen_count
  duplicates : d.duplicate_count ≡ c.duplicate_count

expire_effect :
    (c : DedupCache) (now_ms : ℕ)
    → SameCounts c (expire c now_ms)
      × (size (expire c now_ms) ≤ size c)
      × ((expire c now_ms).evicted_early ≡ c.evicted_early)
      × (length (expire c now_ms).buckets ≤ length c.buckets)
unfolding expire
expire_effect c now_ms =
    let gone = expired (cutoff_at c now_ms) c.buckets in
    (
      record { limit = refl; seen = refl; duplicates = refl },
      total-delete_all-le c.buckets gone,
      refl,
      length-delete_all-le c.buckets gone,
    )

record_id_effect :
    (c : DedupCache) (event_id : String) (event_time_ms : ℕ)
    → SameCounts c (record_id c event_id event_time_ms)
      × (size (record_id c event_id event_time_ms) ≤ size c + 1)
      × ((record_id c event_id event_time_ms).evicted_early ≡ c.evicted_early)
unfolding record_id
record_id_effect c event_id event_time_ms = (
  record { limit = refl; seen = refl; duplicates = refl },
  total-put-le c.buckets (event_time_ms / bucket_span_ms c) event_id,
  refl,
)

enforce_size_effect :
    (c : DedupCache)
    → SameCounts c (enforce_size c)
      × (size (enforce_size c) + (enforce_size c).evicted_early ≡ size c + c.evicted_early)
      × ((size (enforce_size c) ≤ c.max_ids) ⊎ (length (enforce_size c).buckets ≤ 1))
unfolding enforce_size
enforce_size_effect c = (
  record { limit = refl; seen = refl; duplicates = refl },
  trim_count c.max_ids c.buckets c.evicted_early,
  trim_bound c.max_ids c.buckets c.evicted_early,
)

-- At most `max_ids` ids, or a single bucket of them; and the counters account for every id: no
-- more ids are held, evicted early and dropped as duplicates than were seen.
pub record IsBounded (c : DedupCache) : Type 0 where
  pub small : (size c ≤ c.max_ids) ⊎ (length c.buckets ≤ 1)
  pub accounts : size c + c.evicted_early + c.duplicate_count ≤ c.seen_count

-- The counters after an id was answered: one more seen, and one more duplicate if it was dropped.
pub record IsCounted (c d : DedupCache) (new : Bool) : Type 0 where
  pub seen : d.seen_count ≡ c.seen_count + 1
  pub duplicates : d.duplicate_count ≡ (if new then c.duplicate_count else c.duplicate_count + 1)

-- Whatever id and time is fed, `is_new` keeps at most `max_ids` ids or a single bucket of them, and
-- the account that no more ids are held, evicted early and dropped as duplicates than were seen; it
-- counts each id as seen, and as a duplicate exactly when it answers that the id is not new.
pub is_new-IsBounded :
    (c : DedupCache) (event_id : String) (event_time_ms : ℕ)
    → IsBounded c
    → IsBounded (is_new c event_id event_time_ms).0
      × IsCounted c (is_new c event_id event_time_ms).0 (is_new c event_id event_time_ms).1
unfolding is_new
is_new-IsBounded c event_id event_time_ms h =
    let c1 : DedupCache = record c { seen_count = c.seen_count + 1 } in
    let c2 = expire c1 event_time_ms in
    let c3 = record_id c2 event_id event_time_ms in
    let e1 = expire_effect c1 event_time_ms in
    let e2 = record_id_effect c2 event_id event_time_ms in
    let e3 = enforce_size_effect c3 in
    elim (Bool-cases (remembers c2.buckets event_id)) [
      | inl q ↦ rw q (
        record {
          small = ground (arith, e1, h.small);
          accounts = omega (arith, e1.0.seen, e1.0.duplicates);
        },
        record { seen = ground (arith, e1.0.seen); duplicates = ground (arith, e1.0.duplicates) },
      )
      | inr q ↦ rw q (
        record { small = ground (arith, e1, e2, e3); accounts = ground (arith, e1, e2, e3) },
        record {
          seen = omega (arith, e1.0.seen, e2.0.seen, e3.0.seen);
          duplicates = omega (arith, e1.0.duplicates, e2.0.duplicates, e3.0.duplicates);
        },
      )
    ]
