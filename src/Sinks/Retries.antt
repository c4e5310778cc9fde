-- ===== src/Sinks/Retries.antt =====
-- sinks/db.py: `Database.write` through lost connections.
use wikistream_kafka.Prelude.{
  ℕ, ◌+◌, ◌≡◌, refl, ◌∙◌, ◌⊎◌, inl, inr, true, false, List, [], ◌∷◌, arith, Bool-cases,
}
use wikistream_kafka.Windows.{key_eq}
use wikistream_kafka.Sinks.{
  Written, Answer, done, lost, refused, wait_for_database, reconnect_retries, returned, write,
}

-- The table is as it was, or the operation has been done on it once.
abbrev AtMostOnce : {Table : Type 0} → (Table → Written Table) → Table → Table → Type 0
AtMostOnce operation before after = (after ≡ before) ⊎ (after ≡ (operation before).table)

module _ {Table : Type 0} (operation : Table → Written Table)
    (again : (t : Table) → (operation (operation t).table).table ≡ (operation t).table) where
  write-AtMostOnce :
      (answers : List Answer) (table : Table) (reconnects : ℕ)
      → AtMostOnce operation table (write operation table reconnects answers).table
  unfolding write
  write-AtMostOnce [] table reconnects = inl refl
  write-AtMostOnce (done ∷ answers) table reconnects = inr refl
  write-AtMostOnce (refused ∷ answers) table reconnects = inl refl
  write-AtMostOnce (lost true connects ∷ answers) table reconnects =
      elim (Bool-cases (wait_for_database reconnect_retries connects)) [
        | inl q ↦ rw q (elim (write-AtMostOnce answers (operation table).table (reconnects + 1)) [
          | inl e ↦ inr e
          | inr e ↦ inr (e ∙ again table)
        ])
        | inr q ↦ rw q (inr refl)
      ]
  write-AtMostOnce (lost false connects ∷ answers) table reconnects =
      elim (Bool-cases (wait_for_database reconnect_retries connects)) [
        | inl q ↦ rw q (write-AtMostOnce answers table (reconnects + 1))
        | inr q ↦ rw q (inl refl)
      ]

  write-returned :
      (answers : List Answer) (table : Table) (reconnects n : ℕ)
      → (write operation table reconnects answers).ending ≡ returned n
      → (write operation table reconnects answers).table ≡ (operation table).table
  unfolding write
  write-returned [] table reconnects n h = absurd (ground arith)
  write-returned (done ∷ answers) table reconnects n h = refl
  write-returned (refused ∷ answers) table reconnects n h = absurd (ground arith)
  write-returned (lost true connects ∷ answers) table reconnects n h =
      elim (Bool-cases (wait_for_database reconnect_retries connects)) [
        | inl q ↦ rw q (
            write-returned answers (operation table).table (reconnects + 1) n (rw q at h)
            ∙ again table)
        | inr q ↦ absurd (ground arith)
      ]
  write-returned (lost false connects ∷ answers) table reconnects n h =
      elim (Bool-cases (wait_for_database reconnect_retries connects)) [
        | inl q ↦ rw q (write-returned answers table (reconnects + 1) n (rw q at h))
        | inr q ↦ absurd (ground arith)
      ]

-- However often the connection is lost in the middle of a write, before its commit or after it, the
-- write of an operation that is harmless to repeat leaves the table as it was or with the operation
-- done once; when it returns, the operation has been done.
pub write_once :
    {Table : Type 0} (operation : Table → Written Table)
    → ((t : Table) → (operation (operation t).table).table ≡ (operation t).table)
    → (table : Table) (reconnects : ℕ) (answers : List Answer)
    → let r = write operation table reconnects answers in
      ((r.table ≡ table) ⊎ (r.table ≡ (operation table).table))
      × ((n : ℕ) → r.ending ≡ returned n → r.table ≡ (operation table).table)
write_once operation again table reconnects answers = (
  write-AtMostOnce operation again answers table reconnects,
  write-returned operation again answers table reconnects,
)
