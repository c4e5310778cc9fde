-- ===== src/Retention.antt =====
-- common/offsets.py: committed offsets that fell behind the topic's retention.
pub mod Loss
use wikistream_kafka.Prelude.{
  ℕ, String, Bool, Option, none, some, List, [], ◌∷◌, map, ltb, if◌then◌else◌,
}
use wikistream_kafka.Prelude.Int.{ℤ, pos, sub_ℕ, ◌+ℤ◌}

-- A partition with the committed offset, if there is one, and the low watermark of its log.
pub record Owned : Type 0 where
  pub topic : String
  pub partition : ℕ
  pub committed : Option ℕ
  pub log_start : ℕ

pub record RetentionGap : Type 0 where
  pub topic : String
  pub partition : ℕ
  pub committed : ℕ
  pub log_start : ℕ

-- the property `lost`
unfoldable pub lost : RetentionGap → ℤ
lost g = sub_ℕ g.log_start g.committed

unfoldable pub find_retention_gaps : List Owned → List RetentionGap
find_retention_gaps [] = []
find_retention_gaps (tp ∷ partitions) =
    let gaps = find_retention_gaps partitions in
    elim tp.committed [
      | none ↦ gaps
      | some offset ↦
          let gap : RetentionGap = record {
            topic = tp.topic;
            partition = tp.partition;
            committed = offset;
            log_start = tp.log_start;
          } in
          if ltb offset tp.log_start then gap ∷ gaps else gaps
    ]

unfoldable pub sum_lost : List RetentionGap → ℤ
sum_lost [] = pos 0
sum_lost (g ∷ gaps) = lost g +ℤ sum_lost gaps

-- The result of `report_retention_gaps`, less the log.
unfoldable pub report_retention_gaps : List Owned → ℤ
report_retention_gaps partitions = sum_lost (find_retention_gaps partitions)
