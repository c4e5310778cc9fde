-- ===== src/Dedup/Novelty.antt =====
-- processors/dedup.py: only copies are dropped.
use wikistream_kafka.Prelude.{
  ℕ, ◌+◌, ◌/◌, ◌≡◌, refl, inl, inr, String, true, false, List, [], ◌∷◌, map, arith, nat_eq,
  string_eq, ◌==◌, contains, contains-insert, insert, ltb, length, any, All, All-map, Bool-cases,
  Option-cases,
}
use wikistream_kafka.Dict
use wikistream_kafka.Dict.{All-put, All-get}
use wikistream_kafka.Dict.Bulk.{All-delete_all}
use wikistream_kafka.Dedup.{
  Buckets, DedupCache, dedup_cache, total, expired, cutoff_at, expire, remembers, trim,
  enforce_size, record_id, is_new, bucket_span_ms,
}
use wikistream_kafka.Dedup.Window.{feed}

-- The ids of a list of events.
abbrev pub ids_of : List (String × ℕ) → List String
ids_of = map (λ e. e.0)

-- Every id in a bucket is one of the list.
abbrev Known : List String → Buckets → Type 0
Known past b = All (λ e. (x : String) → contains e.1 x ≡ true → contains past x ≡ true) b

remembers-Known :
    (past : List String) (b : Buckets) (x : String)
    → Known past b
    → remembers b x ≡ true
    → contains past x ≡ true
unfolding remembers any
remembers-Known past [] x k h = absurd (ground arith)
remembers-Known past ((i, ids) ∷ b) x k h = elim (Bool-cases (contains ids x)) [
  | inl q ↦ k.0 x q
  | inr q ↦ remembers-Known past b x k.1 (ground arith)
]

trim-Known :
    (past : List String) (max_ids : ℕ) (b : Buckets) (evicted : ℕ)
    → Known past b
    → Known past (trim max_ids b evicted).0
unfolding trim
trim-Known past max_ids [] evicted k = tt
trim-Known past max_ids (b ∷ []) evicted k = k
trim-Known past max_ids (b ∷ b' ∷ rest) evicted k =
    elim (Bool-cases (ltb max_ids (total (b ∷ b' ∷ rest)))) [
      | inl q ↦ rw q (trim-Known past max_ids (b' ∷ rest) (evicted + length b.1) k.1)
      | inr q ↦ rw q k
    ]

record_id-Known :
    (past : List String) (c : DedupCache) (y : String) (time : ℕ)
    → Known past c.buckets
    → contains past y ≡ true
    → Known past (record_id c y time).buckets
unfolding record_id Dict.get_or
record_id-Known past c y time k old =
    let index = time / bucket_span_ms c in
    let P : ℕ × List String → Type 0 =
      λ e. (x : String) → contains e.1 x ≡ true → contains past x ≡ true in
    All-put P c.buckets index (insert (Dict.get_or c.buckets index []) y) k (λ x h.
      elim (Bool-cases (y == x)) [
        | inl q ↦ ground (arith, string_eq.same_iff y x)
        | inr q ↦ elim (Option-cases (Dict.get c.buckets index)) [
          | inl none_yet ↦ absurd (
              unfold contains in
              ground (arith, contains-insert (Dict.get_or c.buckets index []) y x))
          | inr found ↦
              All-get P c.buckets index found.0 k found.1 x
                (ground (arith, found.1, contains-insert (Dict.get_or c.buckets index []) y x))
        ]
      ])

is_new-Known :
    (past : List String) (c : DedupCache) (y : String) (time : ℕ)
    → Known past c.buckets
    → Known (y ∷ past) (is_new c y time).0.buckets
unfolding is_new enforce_size expire contains
is_new-Known past c y time k =
    let seen : DedupCache = record c { seen_count = c.seen_count + 1 } in
    let P : ℕ × List String → Type 0 =
      λ e. (x : String) → contains e.1 x ≡ true → contains past x ≡ true in
    let Q : ℕ × List String → Type 0 =
      λ e. (x : String) → contains e.1 x ≡ true → contains (y ∷ past) x ≡ true in
    let c2 = expire seen time in
    let k1 = All-map P Q c.buckets (λ e f x h. ground (arith, f x h)) k in
    let k2 = All-delete_all Q c.buckets (expired (cutoff_at seen time) c.buckets) k1 in
    elim (Bool-cases (remembers c2.buckets y)) [
      | inl q ↦ rw q k2
      | inr q ↦
          let c3 = record_id c2 y time in
          rw q (
            trim-Known (y ∷ past) c3.max_ids c3.buckets c3.evicted_early
              (record_id-Known (y ∷ past) c2 y time k2 (ground (arith, string_eq.same_iff y y))))
    ]

feed-passes :
    (past : List String) (c : DedupCache) (events : List (String × ℕ)) (x : String) (time : ℕ)
    → Known past c.buckets
    → contains past x ≡ false
    → contains (ids_of events) x ≡ false
    → (is_new (feed c events) x time).1 ≡ true
unfolding feed contains is_new expire
feed-passes past c [] x time k old new =
    let seen : DedupCache = record c { seen_count = c.seen_count + 1 } in
    let P : ℕ × List String → Type 0 =
      λ e. (z : String) → contains e.1 z ≡ true → contains past z ≡ true in
    let k2 = All-delete_all P c.buckets (expired (cutoff_at seen time) c.buckets) k in
    elim (Bool-cases (remembers (expire seen time).buckets x)) [
      | inl q ↦
          absurd
            (let known = remembers-Known past (expire seen time).buckets x k2 q in cc (known, old))
      | inr q ↦ rw q
    ]
feed-passes past c ((y, t) ∷ rest) x time k old new =
    feed-passes (y ∷ past) (is_new c y t).0 rest x time (is_new-Known past c y t k) (ground arith)
      (ground arith)

-- An id that the cache was not given before is let through, whatever the times are and however
-- the cache is set up: deduplication drops only copies.
pub new_passes :
    (window_ms buckets max_ids : ℕ) (events : List (String × ℕ)) (x : String) (time : ℕ)
    → contains (ids_of events) x ≡ false
    → (is_new (feed (dedup_cache window_ms buckets max_ids) events) x time).1 ≡ true
unfolding contains
new_passes window_ms buckets max_ids events x time new =
    feed-passes [] (dedup_cache window_ms buckets max_ids) events x time tt refl new
