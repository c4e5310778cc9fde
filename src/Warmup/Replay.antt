-- ===== src/Warmup/Replay.antt =====
-- processors/warmup.py: the bounds of the replay, and that events past the committed offset stay
-- unknown.
use wikistream_kafka.Prelude.{
  ℕ, ◌+◌, ◌-◌, ◌≤◌, ◌<◌, ◌≡◌, refl, sym, ap, ◌∙◌, subst, inl, inr, max, String, Bool, true, false,
  some, List, [], ◌∷◌, ◌++◌, ltb, leb, if◌then◌else◌, Bool-cases, Option-cases, arith, contains,
  string_eq, ◌==◌,
}
use wikistream_kafka.Dedup.{DedupCache, dedup_cache, is_new}
use wikistream_kafka.Dedup.Window.{feed}
use wikistream_kafka.Dedup.Novelty.{ids_of, new_passes}
use wikistream_kafka.Parsing.{Library, Parsed, parsed, refused, raised, event_id_of, and_then}
use wikistream_kafka.Parsing.Clean.{parse_raw}
use wikistream_kafka.Parsing.Raises.{raises, raises-id_of}
use wikistream_kafka.Warmup.{
  RawRecord, WarmupResult, Replayer, Answers, Poll, nothing, partition_eof, failed, received,
  anchor_time, start_offset, load_id, load, count_load, replay_loop, fresh_result, warm,
}

-- A replay starts at a record that is still kept, before the committed offset, and reads at most
-- `max_records` records.
pub start_offset-le :
    (r : Replayer) (a : Answers) (until_offset start : ℕ)
    → start_offset r a until_offset ≡ some start
    → (a.low ≤ start) × (start < until_offset) × (until_offset ≤ start + r.max_records)
unfolding start_offset
start_offset-le r a until_offset start h = elim (Bool-cases (leb until_offset a.low)) [
  | inl q ↦ absurd (ground arith)
  | inr q ↦ elim (Option-cases (a.offset_for_time (anchor_time a - r.window_ms))) [
    | inl f ↦ absurd (ground arith)
    | inr (found, f) ↦
        let first = max (max found a.low) (until_offset - r.max_records) in
        elim (Bool-cases (ltb first until_offset)) [
          | inl lt ↦
              let same : first ≡ start = ground arith in
              (omega (arith, same), ground (arith, same, lt), omega (arith, same))
          | inr ge ↦ absurd (ground arith)
        ]
  ]
]

parsed-injective : {A : Type 0} (a b : A) → parsed a ≡ parsed b → a ≡ b
parsed-injective {A} a b e =
    let f : Parsed A → A = λ p. elim p [ parsed x ↦ x | refused r ↦ a | raised x ↦ a ] in ap f e

-- The id of a record of the stream.
abbrev pub id_of : Library → RawRecord → Parsed String
id_of lib m = and_then (parse_raw lib m.value) event_id_of

-- No record before the offset has the id, and no poll fails.
unfoldable pub Unseen : Library → ℕ → String → List Poll → Type 0
Unseen lib until_offset x [] = Unit
Unseen lib until_offset x (nothing ∷ polls) = Unseen lib until_offset x polls
Unseen lib until_offset x (partition_eof ∷ polls) = Unseen lib until_offset x polls
Unseen lib until_offset x (failed e ∷ polls) = ⊥
Unseen lib until_offset x (received m ∷ polls) =
    (m.offset < until_offset → (y : String) → id_of lib m ≡ parsed y → (y == x) ≡ false)
    × Unseen lib until_offset x polls

-- The cache was fed with ids other than `x`.
pub record FedWithout (x : String) (c0 c : DedupCache) : Type 0 where
  pub events : List (String × ℕ)
  pub fed : c ≡ feed c0 events
  pub unseen : contains (ids_of events) x ≡ false

feed-append :
    (c : DedupCache) (events : List (String × ℕ)) (y : String) (t : ℕ)
    → feed c (events ++ (y, t) ∷ []) ≡ (is_new (feed c events) y t).0
unfolding feed
feed-append c [] y t = refl
feed-append c ((z, u) ∷ events) y t = feed-append (is_new c z u).0 events y t

contains-ids_of :
    (events : List (String × ℕ)) (x y : String) (t : ℕ)
    → contains (ids_of events) x ≡ false
    → (y == x) ≡ false
    → contains (ids_of (events ++ (y, t) ∷ [])) x ≡ false
unfolding contains
contains-ids_of [] x y t h n = rw n refl
contains-ids_of ((z, u) ∷ events) x y t h n = ground (arith, contains-ids_of events x y t)

is_new-FedWithout :
    (x : String) (c0 c : DedupCache) (y : String) (t : ℕ)
    → FedWithout x c0 c
    → (y == x) ≡ false
    → FedWithout x c0 (is_new c y t).0
is_new-FedWithout x c0 c y t h n = record {
  events = h.events ++ (y, t) ∷ [];
  fed = ap (λ (d : DedupCache). (is_new d y t).0) h.fed ∙ sym (feed-append c0 h.events y t);
  unseen = contains-ids_of h.events x y t h.unseen n;
}

-- One record that does not have the id `x`.
load_id-FedWithout :
    (now_ms : ℕ) (m : RawRecord) (x : String) (c0 c : DedupCache) (id : Parsed String)
    (y : DedupCache × Bool)
    → FedWithout x c0 c
    → ((z : String) → id ≡ parsed z → (z == x) ≡ false)
    → load_id now_ms m c id ≡ parsed y
    → FedWithout x c0 y.0
unfolding load_id
load_id-FedWithout now_ms m x c0 c (parsed z) y h n e =
    subst (λ (v : DedupCache × Bool). FedWithout x c0 v.0) (parsed-injective _ y e)
      (is_new-FedWithout x c0 c z (if ltb 0 m.timestamp then m.timestamp else now_ms) h (n z refl))
load_id-FedWithout now_ms m x c0 c (refused r) y h n e =
    subst (λ (v : DedupCache × Bool). FedWithout x c0 v.0) (parsed-injective (c, false) y e) h
load_id-FedWithout now_ms m x c0 c (raised r) y h n e = absurd (ground arith)

count_load-until :
    (r : WarmupResult) (used : Bool) → (count_load r used).until_offset ≡ r.until_offset
count_load-until r true = refl
count_load-until r false = refl

-- `load` returns, since reading the id raises nothing but a ParseError.
load_id-returns :
    (now_ms : ℕ) (m : RawRecord) (c : DedupCache) (id : Parsed String)
    → raises id ≡ false
    → (y : DedupCache × Bool) × (load_id now_ms m c id ≡ parsed y)
unfolding load_id
load_id-returns now_ms m c (parsed z) h = (_, refl)
load_id-returns now_ms m c (refused r) h = (_, refl)
load_id-returns now_ms m c (raised x) h = absurd (ground arith)

-- The replay returns, and the cache was fed with ids other than `x`.
abbrev Replayed : String → DedupCache → Parsed (DedupCache × WarmupResult) → Type 0
Replayed x c0 p = (y : DedupCache × WarmupResult) × (p ≡ parsed y) × FedWithout x c0 y.0

replay_loop-Replayed :
    (lib : Library) (now_ms : ℕ) (x : String) (c0 c : DedupCache) (polls : List Poll)
    (r : WarmupResult)
    → Unseen lib r.until_offset x polls
    → FedWithout x c0 c
    → Replayed x c0 (replay_loop lib now_ms polls c r)
unfolding replay_loop Unseen load and_then
replay_loop-Replayed lib now_ms x c0 c [] r u h = ((c, r), refl, h)
replay_loop-Replayed lib now_ms x c0 c (nothing ∷ polls) r u h = ((c, r), refl, h)
replay_loop-Replayed lib now_ms x c0 c (partition_eof ∷ polls) r u h = ((c, r), refl, h)
replay_loop-Replayed lib now_ms x c0 c (failed error ∷ polls) r u h = absurd u
replay_loop-Replayed lib now_ms x c0 c (received m ∷ polls) r u h =
    elim (Bool-cases (leb r.until_offset m.offset)) [
      | inl q ↦ ((c, r), rw q refl, h)
      | inr q ↦
          let (z, l) = load_id-returns now_ms m c (id_of lib m) (raises-id_of lib m.value) in
          let (y, e, f) =
            replay_loop-Replayed lib now_ms x c0 z.0 polls (count_load r z.1)
              (subst (λ (n : ℕ). Unseen lib n x polls) (sym (count_load-until r z.1)) u.1)
              (load_id-FedWithout now_ms m x c0 c (id_of lib m) z h (u.0 (ground arith)) l) in
          (y, rw (q, l, and_then) e, f)
    ]

untouched : (x : String) (c : DedupCache) → FedWithout x c c
unfolding feed contains
untouched x c = record { events = []; fed = refl; unseen = refl }

warm-Replayed :
    (lib : Library) (r : Replayer) (a : Answers) (until_offset : ℕ) (polls : List Poll) (x : String)
    (c : DedupCache)
    → Unseen lib until_offset x polls
    → Replayed x c (warm lib r a until_offset polls c)
unfolding warm
warm-Replayed lib r a until_offset polls x c u = elim (Bool-cases (leb until_offset 0)) [
  | inl q ↦ ((c, fresh_result until_offset), rw (warm, q) refl, untouched x c)
  | inr q ↦ elim (Option-cases (start_offset r a until_offset)) [
    | inl s ↦ ((c, fresh_result until_offset), rw (warm, q, s) refl, untouched x c)
    | inr (start, s) ↦
        let result = record (fresh_result until_offset) { from_offset = some start } in
        rw (warm, q, s) (replay_loop-Replayed lib a.now_ms x c c polls result u (untouched x c))
  ]
]

-- The warm up of a fresh cache returns, if no poll fails, and an event id that no record before the
-- committed offset has is still new to the cache: what the group has not committed is cleaned as
-- usual, not dropped as a duplicate, whatever the replay read.
pub uncommitted_passes :
    (lib : Library) (r : Replayer) (a : Answers) (until_offset : ℕ) (polls : List Poll)
    (window_ms buckets max_ids : ℕ) (x : String) (time : ℕ)
    → Unseen lib until_offset x polls
    → (y : DedupCache × WarmupResult) × (warm lib r a until_offset polls
          (dedup_cache window_ms buckets max_ids)
        ≡ parsed y)
      × ((is_new y.0 x time).1 ≡ true)
uncommitted_passes lib r a until_offset polls window_ms buckets max_ids x time u =
    let c0 = dedup_cache window_ms buckets max_ids in
    let (y, e, f) = warm-Replayed lib r a until_offset polls x c0 u in
    (y, e, rw f.fed (new_passes window_ms buckets max_ids f.events x time f.unseen))
