-- ===== src/Cleaner/Accounts.antt =====
-- processors/cleaner.py: what becomes of a handled message, and how it is counted.
use wikistream_kafka.Prelude.{
  ℕ, ◌+◌, ◌≡◌, String, Option, some, List, [], ◌∷◌, nat_eq, ◌==◌, Bool, true, false,
}
use wikistream_kafka.Dict
use wikistream_kafka.Dict.{Dict}
use wikistream_kafka.Models.{CleanEvent, page_key}
use wikistream_kafka.Dedup.{is_new}
use wikistream_kafka.Parsing.{Parsed, parsed, refused, raised}
use wikistream_kafka.Transform.{rejected, skipped, event_time_ms, Read, canary, event}
use wikistream_kafka.Cleaner.{Produced, to_clean, to_dlq, Message, Cleaner, cache_for}

-- the messages that the counters say were handled
abbrev pub handled : Cleaner → ℕ
handled s = s.produced + s.duplicates + s.skipped + s.rejected

-- What becomes of a message that reads as an event: it is produced if the filter of its partition
-- has not seen its id, and is a duplicate otherwise.
abbrev pub IsFiltered : Cleaner → Message → Cleaner × List Produced → CleanEvent → Bool → Type 0
IsFiltered s m y e true =
    (y.1 ≡ to_clean (page_key e) e m.timestamp ∷ []) × (y.0.produced ≡ s.produced + 1)
IsFiltered s m y e false = (y.1 ≡ []) × (y.0.duplicates ≡ s.duplicates + 1)

-- What becomes of a message that was read: a canary is skipped, a refused one goes to the DLQ.
abbrev pub IsDealt :
    (String → Option ℕ) → Cleaner → Message → Cleaner × List Produced → Parsed Read → Type 0
IsDealt event_ms s m y (parsed canary) = (y.1 ≡ []) × (y.0.skipped ≡ s.skipped + 1)
IsDealt event_ms s m y (parsed (event e)) =
    IsFiltered s m y e
      (is_new (cache_for s m.partition) e.event_id (event_time_ms event_ms e (some m.timestamp))).1
IsDealt event_ms s m y (refused reason) =
    (y.1 ≡ to_dlq reason m.value m.partition m.offset ∷ []) × (y.0.rejected ≡ s.rejected + 1)
IsDealt event_ms s m y (raised x) = ⊥

-- What one handled message changes: one count goes up, that of the outcome; the meter follows the
-- counts of what is produced; and the filters of the other partitions stay.
pub record IsAccounted (event_ms : String → Option ℕ) (s : Cleaner) (m : Message)
    (y : Cleaner × List Produced) (read : Parsed Read) : Type 0 where
  pub dealt : IsDealt event_ms s m y read
  pub counted : handled y.0 ≡ handled s + 1
  pub marked : y.0.marked + s.produced ≡ s.marked + y.0.produced
  pub errors : y.0.errors + s.rejected ≡ s.errors + y.0.rejected
  pub others : (q : ℕ) → (m.partition == q) ≡ false → Dict.get y.0.caches q ≡ Dict.get s.caches q
