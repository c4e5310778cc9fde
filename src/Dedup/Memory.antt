-- ===== src/Dedup/Memory.antt =====
-- processors/dedup.py: an id that was let through is recognised for the whole window.
use wikistream_kafka.Prelude.{
  ℕ, ◌+◌, ◌/◌, ◌≤◌, ◌<◌, ◌≡◌, refl, ◌∙◌, inl, inr, String, Bool, true, false, ◌||◌, List, [], ◌∷◌,
  arith, nat_eq, string_eq, contains, contains-insert, contains-filter, insert, ltb, if◌then◌else◌,
  length, any, Bool-cases, ◌==◌, same_refl, nat_beq_iff,
}
use wikistream_kafka.Dict
use wikistream_kafka.Dict.{keys, get-put, contains-keys}
use wikistream_kafka.Dict.Bulk.{delete_all, get-delete_all}
use wikistream_kafka.Dedup.{
  Buckets, DedupCache, total, expired, cutoff_at, expire, remembers, trim, enforce_size, record_id,
  is_new, bucket_span_ms,
}

-- Bucket `i` holds the id.
abbrev pub holds : Buckets → ℕ → String → Bool
holds b i x = contains (Dict.get_or b i []) x

pub holds→remembers : (b : Buckets) (i : ℕ) (x : String) → holds b i x ≡ true → remembers b x ≡ true
unfolding remembers any Dict.get_or Dict.get contains
holds→remembers [] i x h = ground arith
holds→remembers ((j, ids) ∷ b) i x h = ground (arith, holds→remembers b i x)

holds-delete_all :
    (b : Buckets) (is : List ℕ) (i : ℕ) (x : String)
    → contains is i ≡ false
    → holds (delete_all b is) i x ≡ holds b i x
unfolding Dict.get_or
holds-delete_all b is i x h = ground (arith, get-delete_all b is i)

pub expire-holds :
    (c : DedupCache) (now_ms i : ℕ) (x : String)
    → cutoff_at c now_ms ≤ i
    → holds c.buckets i x ≡ true
    → holds (expire c now_ms).buckets i x ≡ true
unfolding expire
expire-holds c now_ms i x le h =
    let gone = expired (cutoff_at c now_ms) c.buckets in
    let kept : contains gone i ≡ false =
      ground (arith, contains-filter (λ (j : ℕ). ltb j (cutoff_at c now_ms)) (keys c.buckets) i) in
    holds-delete_all c.buckets gone i x kept ∙ h

-- The id is added to the bucket of its time, and no bucket loses one.
record_id-holds :
    (c : DedupCache) (y : String) (time i : ℕ) (x : String)
    → holds (record_id c y time).buckets i x ≡ (
        if time / bucket_span_ms c == i then y == x || holds c.buckets i x else holds c.buckets i x)
unfolding record_id Dict.get_or
record_id-holds c y time i x =
    let index = time / bucket_span_ms c in
    ground (
      arith,
      nat_beq_iff index i,
      get-put c.buckets index i (insert (Dict.get_or c.buckets index []) y),
      contains-insert (Dict.get_or c.buckets index []) y x,
    )

trim-le : (max_ids : ℕ) (b : Buckets) (evicted : ℕ) → evicted ≤ (trim max_ids b evicted).1
unfolding trim
trim-le max_ids [] evicted = omega arith
trim-le max_ids (b ∷ []) evicted = omega arith
trim-le max_ids (b ∷ b' ∷ rest) evicted =
    ground (arith, trim-le max_ids (b' ∷ rest) (evicted + length b.1))

length-contains : (ids : List String) (x : String) → contains ids x ≡ true → 0 < length ids
unfolding contains
length-contains [] x h = absurd (ground arith)
length-contains (y ∷ ids) x h = omega arith

-- Dropping the bucket of an id shows in `evicted_early`.
trim-holds :
    (max_ids : ℕ) (b : Buckets) (evicted i : ℕ) (x : String)
    → holds b i x ≡ true
    → (trim max_ids b evicted).1 ≡ evicted
    → holds (trim max_ids b evicted).0 i x ≡ true
unfolding trim Dict.get_or Dict.get
trim-holds max_ids [] evicted i x h e = h
trim-holds max_ids (b ∷ []) evicted i x h e = h
trim-holds max_ids ((j, ids) ∷ b' ∷ rest) evicted i x h e =
    let b = b' ∷ rest in
    elim (Bool-cases (ltb max_ids (total ((j, ids) ∷ b)))) [
      | inl q ↦
          let e' : (trim max_ids b (evicted + length ids)).1 ≡ evicted = rw q at e in
          let le = trim-le max_ids b (evicted + length ids) in
          elim (Bool-cases (j == i)) [
            | inl here ↦ absurd (
                let in_first : contains ids x ≡ true = ground arith in
                let pos = length-contains ids x in_first in omega arith)
            | inr later ↦ rw q (
                trim-holds max_ids (b' ∷ rest) (evicted + length ids) i x (ground arith)
                  (omega (arith, trim-le max_ids b (evicted + length ids))))
          ]
      | inr q ↦ rw q h
    ]

module _ (c : DedupCache) (y : String) (time : ℕ) where
  pub evicted_early-is_new : c.evicted_early ≤ (is_new c y time).0.evicted_early
  unfolding is_new expire record_id enforce_size
  evicted_early-is_new =
      let seen : DedupCache = record c { seen_count = c.seen_count + 1 } in
      let c3 = record_id (expire seen time) y time in
      ground (arith, trim-le c3.max_ids c3.buckets c3.evicted_early)

  -- The settings do not change.
  pub settings-is_new :
      ((is_new c y time).0.window_ms ≡ c.window_ms)
      × (bucket_span_ms (is_new c y time).0 ≡ bucket_span_ms c)
  unfolding is_new expire record_id enforce_size bucket_span_ms
  settings-is_new = ground arith

  -- An id whose bucket is not older than the window stays, unless a bucket was evicted early.
  pub is_new-holds :
      (i : ℕ) (x : String)
      → cutoff_at c time ≤ i
      → (is_new c y time).0.evicted_early ≡ c.evicted_early
      → holds c.buckets i x ≡ true
      → holds (is_new c y time).0.buckets i x ≡ true
  unfolding is_new enforce_size
  is_new-holds i x le e h =
      let seen : DedupCache = record c { seen_count = c.seen_count + 1 } in
      let c2 = expire seen time in
      let c3 = record_id c2 y time in
      let h2 = expire-holds seen time i x (unfold bucket_span_ms in le) h in
      elim (Bool-cases (remembers c2.buckets y)) [
        | inl q ↦ rw q h2
        | inr q ↦
            let h3 : holds c3.buckets i x ≡ true = ground (arith, record_id-holds c2 y time i x) in
            let e' : (trim c3.max_ids c3.buckets c3.evicted_early).1 ≡ c3.evicted_early =
              unfold record_id expire in rw q at e in
            rw q (trim-holds c3.max_ids c3.buckets c3.evicted_early i x h3 e')
      ]

  -- An id that was let through is in the bucket of its time.
  pub is_new-holds_self :
      (is_new c y time).1 ≡ true
      → (is_new c y time).0.evicted_early ≡ c.evicted_early
      → holds (is_new c y time).0.buckets (time / bucket_span_ms c) y ≡ true
  unfolding is_new enforce_size
  is_new-holds_self new e =
      let seen : DedupCache = record c { seen_count = c.seen_count + 1 } in
      let c2 = expire seen time in
      let c3 = record_id c2 y time in
      let i = time / bucket_span_ms c in
      let same : bucket_span_ms c2 ≡ bucket_span_ms c = unfold expire bucket_span_ms in refl in
      elim (Bool-cases (remembers c2.buckets y)) [
        | inl q ↦ absurd (let no_new : false ≡ true = rw q at new in cc (no_new))
        | inr q ↦
            let h3 : holds c3.buckets i y ≡ true =
              ground (arith, record_id-holds c2 y time i y, same_refl y, nat_beq_iff i i, same) in
            let e' : (trim c3.max_ids c3.buckets c3.evicted_early).1 ≡ c3.evicted_early =
              unfold record_id expire in rw q at e in
            rw q (trim-holds c3.max_ids c3.buckets c3.evicted_early i y h3 e')
      ]
