-- ===== src/Dedup/Window.antt =====
-- processors/dedup.py: copies of an event inside the window are dropped.
use native.Mathlib.Nat.{le-div_iff_mul-le, div-mul-le_self}
use wikistream_kafka.Prelude.{
  ℕ, ◌+◌, ◌-◌, ◌/◌, ◌≤◌, ◌<◌, ◌≡◌, sym, String, true, false, List, [], ◌∷◌, arith, All, subst,
}
use wikistream_kafka.Dedup.{DedupCache, cutoff_at, bucket_span_ms, expire, is_new}
use wikistream_kafka.Dedup.Memory.{
  holds, holds→remembers, expire-holds, evicted_early-is_new, settings-is_new, is_new-holds,
  is_new-holds_self,
}

-- Further events, each an id and a time.
unfoldable pub feed : DedupCache → List (String × ℕ) → DedupCache
feed c [] = c
feed c ((x, time) ∷ rest) = feed (is_new c x time).0 rest

div_mono : (a b s : ℕ) → 0 < s → a ≤ b → a / s ≤ b / s
div_mono a b s pos h = (le-div_iff_mul-le pos).1 (let low = div-mul-le_self a s in omega arith)

span_pos : (c : DedupCache) → 0 < bucket_span_ms c
unfolding bucket_span_ms
span_pos c = omega arith

-- A bucket of time `t` is inside the window of every time up to `t + window_ms`.
cutoff_at-le :
    (c : DedupCache) (t now_ms : ℕ)
    → now_ms ≤ t + c.window_ms
    → cutoff_at c now_ms ≤ t / bucket_span_ms c
cutoff_at-le c t now_ms h =
    div_mono (now_ms - c.window_ms) t (bucket_span_ms c) (span_pos c) (omega arith)

evicted_early-feed :
    (c : DedupCache) (events : List (String × ℕ)) → c.evicted_early ≤ (feed c events).evicted_early
unfolding feed
evicted_early-feed c [] = omega arith
evicted_early-feed c ((x, time) ∷ rest) =
    omega (arith, evicted_early-is_new c x time, evicted_early-feed (is_new c x time).0 rest)

recognised :
    (c : DedupCache) (x : String) (t now_ms : ℕ)
    → holds c.buckets (t / bucket_span_ms c) x ≡ true
    → now_ms ≤ t + c.window_ms
    → (is_new c x now_ms).1 ≡ false
unfolding is_new bucket_span_ms
recognised c x t now_ms h le =
    let seen : DedupCache = record c { seen_count = c.seen_count + 1 } in
    let kept = expire-holds seen now_ms (t / bucket_span_ms c) x (cutoff_at-le c t now_ms le) h in
    rw (holds→remembers (expire seen now_ms).buckets (t / bucket_span_ms c) x kept)

feed-holds :
    (c : DedupCache) (x : String) (t now_ms : ℕ) (events : List (String × ℕ))
    → holds c.buckets (t / bucket_span_ms c) x ≡ true
    → All (λ e. e.1 ≤ t + c.window_ms) events
    → (feed c events).evicted_early ≡ c.evicted_early
    → now_ms ≤ t + c.window_ms
    → (is_new (feed c events) x now_ms).1 ≡ false
unfolding feed
feed-holds c x t now_ms [] h times e le = recognised c x t now_ms h le
feed-holds c x t now_ms ((y, time) ∷ rest) h times e le =
    let c' = (is_new c y time).0 in
    let (w, span) = settings-is_new c y time in
    let kept : holds c'.buckets (t / bucket_span_ms c) x ≡ true =
      is_new-holds c y time (t / bucket_span_ms c) x (cutoff_at-le c t time times.0)
        (omega (arith, evicted_early-is_new c y time, evicted_early-feed (is_new c y time).0 rest))
        h in
    feed-holds (is_new c y time).0 x t now_ms rest (rw span kept)
      (subst (λ (n : ℕ). All (λ e. e.1 ≤ t + n) rest) (sym w) times.1)
      (omega (arith, evicted_early-is_new c y time, evicted_early-feed (is_new c y time).0 rest))
      (rw w le)

-- An id that was let through at time `t` is dropped as a duplicate whenever it comes again up to
-- `t + window_ms`, whatever ids came in between, if their times too are at most `t + window_ms`
-- and no bucket was evicted early to keep the size.
pub duplicate_dropped :
    (c : DedupCache) (x : String) (t now_ms : ℕ) (events : List (String × ℕ))
    → (is_new c x t).1 ≡ true
    → All (λ e. e.1 ≤ t + c.window_ms) events
    → (feed (is_new c x t).0 events).evicted_early ≡ c.evicted_early
    → now_ms ≤ t + c.window_ms
    → (is_new (feed (is_new c x t).0 events) x now_ms).1 ≡ false
duplicate_dropped c x t now_ms events new times e le =
    let (w, span) = settings-is_new c x t in
    let grows = evicted_early-is_new c x t in
    let grows' = evicted_early-feed (is_new c x t).0 events in
    feed-holds (is_new c x t).0 x t now_ms events
      (rw span (is_new-holds_self c x t new (omega arith)))
      (subst (λ (n : ℕ). All (λ e. e.1 ≤ t + n) events) (sym w) times) (omega arith) (rw w le)
