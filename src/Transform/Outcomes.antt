-- ===== src/Transform/Outcomes.antt =====
-- processors/transform.py: a raw message of the stream's shape raises nothing, and copies are
-- duplicates.
use wikistream_kafka.Prelude.{
  ℕ, ◌+◌, ◌≤◌, ◌≡◌, refl, ap, ◌∙◌, inl, inr, String, true, false, Option, List, Bool-cases, All,
}
use wikistream_kafka.Models.{CleanEvent}
use wikistream_kafka.Dedup.{DedupCache, is_new}
use wikistream_kafka.Dedup.Window.{feed, duplicate_dropped}
use wikistream_kafka.Parsing.{Fields, Library, Parsed, parsed, refused, raised, is_canary}
use wikistream_kafka.Parsing.Clean.{parse_raw, clean_event}
use wikistream_kafka.Parsing.Raises.{IsShaped, raises, clean_event-raises}
use wikistream_kafka.Transform.{
  Outcome, duplicate, event_time_ms, event, as_event, read_fields, deduplicated, outcome_of,
  transform,
}

-- What the message decodes to, if it decodes, has the shape of the stream.
abbrev pub IsShapedMessage : Library → List ℕ → Type 0
IsShapedMessage lib payload = (raw : Fields) → parse_raw lib payload ≡ parsed raw → IsShaped lib raw

raises-as_event : (p : Parsed CleanEvent) → raises p ≡ false → raises (as_event p) ≡ false
raises-as_event (parsed e) h = refl
raises-as_event (refused r) h = refl
raises-as_event (raised x) h = h

pub raises-read_fields :
    (lib : Library) (p : Parsed Fields)
    → raises p ≡ false
    → ((raw : Fields) → p ≡ parsed raw → IsShaped lib raw)
    → raises (read_fields lib p) ≡ false
unfolding read_fields
raises-read_fields lib (refused r) h shaped = refl
raises-read_fields lib (raised x) h shaped = h
raises-read_fields lib (parsed raw) h shaped = elim (Bool-cases (is_canary raw)) [
  | inl q ↦ rw q refl
  | inr q ↦
      rw q (raises-as_event (clean_event lib raw) (clean_event-raises lib raw (shaped raw refl)))
]

-- A message that reads as an event is decided by the cache alone.
transform_reads :
    (lib : Library) (event_ms : String → Option ℕ) (payload : List ℕ) (cache : DedupCache)
    (at : Option ℕ) (e : CleanEvent)
    → read_fields lib (parse_raw lib payload) ≡ parsed (event e)
    → transform lib event_ms payload cache at
      ≡ deduplicated (is_new cache e.event_id (event_time_ms event_ms e at)) e
unfolding transform outcome_of
transform_reads lib event_ms payload cache at e r = rw r refl

recognised_copy :
    (cache later : DedupCache) (x y : String) (t now_ms : ℕ) (between : List (String × ℕ))
    → later ≡ (is_new cache x t).0
    → y ≡ x
    → (is_new cache x t).1 ≡ true
    → All (λ e. e.1 ≤ t + cache.window_ms) between
    → (feed later between).evicted_early ≡ cache.evicted_early
    → now_ms ≤ t + cache.window_ms
    → (is_new (feed later between) y now_ms).1 ≡ false
recognised_copy cache later x y t now_ms between l same new times kept near =
    rw (l, same) (duplicate_dropped cache x t now_ms between new times (rw l at kept) near)

-- A message whose event was let through makes every later message with the same event id a
-- duplicate: if its own time is at most the window after the first one's, and so are the times of
-- the events seen in between, and no bucket was evicted early to keep the size.
pub copy_duplicate :
    (lib : Library) (event_ms : String → Option ℕ) (payload copy : List ℕ) (cache : DedupCache)
    (at at' : Option ℕ) (e e' : CleanEvent) (between : List (String × ℕ))
    → read_fields lib (parse_raw lib payload) ≡ parsed (event e)
    → read_fields lib (parse_raw lib copy) ≡ parsed (event e')
    → e'.event_id ≡ e.event_id
    → (is_new cache e.event_id (event_time_ms event_ms e at)).1 ≡ true
    → All (λ x. x.1 ≤ event_time_ms event_ms e at + cache.window_ms) between
    → (feed (transform lib event_ms payload cache at).0 between).evicted_early ≡ cache.evicted_early
    → event_time_ms event_ms e' at' ≤ event_time_ms event_ms e at + cache.window_ms
    → (transform lib event_ms copy (feed (transform lib event_ms payload cache at).0 between) at').1
      ≡ parsed (duplicate e.event_id)
copy_duplicate lib event_ms payload copy cache at at' e e' between r r' same new times kept near =
    let later = (transform lib event_ms payload cache at).0 in
    let known =
      recognised_copy cache later e.event_id e'.event_id (event_time_ms event_ms e at)
        (event_time_ms event_ms e' at') between
        (ap (λ (x : DedupCache × Parsed Outcome). x.0)
          (transform_reads lib event_ms payload cache at e r))
        same new times kept near in
    ap (λ (x : DedupCache × Parsed Outcome). x.1)
      (transform_reads lib event_ms copy (feed later between) at' e' r')
    ∙ rw (known, same) refl
