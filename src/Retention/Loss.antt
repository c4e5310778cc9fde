-- ===== src/Retention/Loss.antt =====
-- common/offsets.py: the reported total is the number of records that expired unread.
use wikistream_kafka.Prelude.{
  ℕ, zero, suc, ◌+◌, Option, none, some, List, [], ◌∷◌, leb, if◌then◌else◌,
}
use wikistream_kafka.Retention.{Owned}

-- The records of one partition, given as offsets below the log start, that were deleted before the
-- group read them: those from the committed offset on. Counted one by one.
unfoldable pub expired_unread : Option ℕ → ℕ → ℕ
expired_unread none log_start = 0
expired_unread (some committed) zero = 0
expired_unread (some committed) (suc offset) =
    let below = expired_unread (some committed) offset in
    if leb committed offset then below + 1 else below

unfoldable pub all_expired : List Owned → ℕ
all_expired [] = 0
all_expired (tp ∷ partitions) = expired_unread tp.committed tp.log_start + all_expired partitions
