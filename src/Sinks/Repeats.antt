-- ===== src/Sinks/Repeats.antt =====
-- sinks/db.py: a write that is repeated changes nothing.
use wikistream_kafka.Prelude.{
  ℕ, zero, suc, ◌+◌, ◌-◌, ◌≡◌, refl, none, some, List, [], ◌∷◌, Keyed, ◌==◌, same_refl,
  if◌then◌else◌, All, arith, Option-cases, inl, inr,
}
use wikistream_kafka.Dict
use wikistream_kafka.Dict.{Dict, get-put, get-put_self, put_same}
use wikistream_kafka.Windows.{key_eq}
use wikistream_kafka.Sinks.{insert_row, inserted, insert_pages, insert_rows, page_size}

-- The table that the rows make, page boundaries aside.
module _ {K V : Type 0} ⦃equality : Keyed K⦄ where
  unfoldable pub put_rows : Dict K V → List (K × V) → Dict K V
  put_rows table [] = table
  put_rows table (row ∷ rows) = put_rows (insert_row table row) rows

  pub table-insert_pages :
      (rows : List (K × V)) (table : Dict K V) (count room : ℕ)
      → (insert_pages table count room rows).table ≡ put_rows table rows
  unfolding insert_pages put_rows
  table-insert_pages [] table count room = refl
  table-insert_pages (row ∷ rows) table count zero =
      table-insert_pages rows (insert_row table row) (inserted table row.0) (page_size - 1)
  table-insert_pages (row ∷ rows) table count (suc room) =
      table-insert_pages rows (insert_row table row) (count + inserted table row.0) room

  pub table-insert_rows :
      (table : Dict K V) (rows : List (K × V))
      → (insert_rows table rows).table ≡ put_rows table rows
  unfolding insert_rows
  table-insert_rows table rows = table-insert_pages rows table 0 page_size

  -- A row that is there stays as it is.
  pub get-insert_row :
      (table : Dict K V) (row : K × V) (k : K)
      → Dict.get (insert_row table row) k ≡ elim (Dict.get table k) [
        | some old ↦ some old
        | none ↦ if row.0 == k then some row.1 else none
      ]
  unfolding insert_row
  get-insert_row table (j, v) k = ground (arith, equality.same_iff j k, get-put table j k v)

  pub kept-put_rows :
      (rows : List (K × V)) (table : Dict K V) (k : K) (v : V)
      → Dict.get table k ≡ some v
      → Dict.get (put_rows table rows) k ≡ some v
  unfolding put_rows
  kept-put_rows [] table k v h = h
  kept-put_rows (row ∷ rows) table k v h =
      kept-put_rows rows (insert_row table row) k v (ground (arith, get-insert_row table row k))

  -- Every row written is in the table, or one with its key was before.
  pub all-put_rows :
      (rows : List (K × V)) (table : Dict K V)
      → All (λ row. (v : V) × (Dict.get (put_rows table rows) row.0 ≡ some v)) rows
  unfolding put_rows
  all-put_rows [] table = tt
  all-put_rows (row ∷ rows) table = (first, all-put_rows rows (insert_row table row))
    where
      first : (v : V) × (Dict.get (put_rows (insert_row table row) rows) row.0 ≡ some v)
      first = elim (Option-cases (Dict.get table row.0)) [
        | inl q ↦ (
          row.1,
          kept-put_rows rows (insert_row table row) row.0 row.1
              (ground (arith, get-insert_row table row row.0, same_refl row.0)),
        )
        | inr q ↦ (
          q.0,
          kept-put_rows rows (insert_row table row) row.0 q.0
              (ground (arith, get-insert_row table row row.0)),
        )
      ]

  insert_row_same :
      (table : Dict K V) (row : K × V) (v : V)
      → Dict.get table row.0 ≡ some v
      → insert_row table row ≡ table
  unfolding insert_row
  insert_row_same table row v h = rw (h, insert_row) refl

  present-put_rows :
      (rows : List (K × V)) (table : Dict K V)
      → All (λ row. (v : V) × (Dict.get table row.0 ≡ some v)) rows
      → put_rows table rows ≡ table
  unfolding put_rows
  present-put_rows [] table h = refl
  present-put_rows (row ∷ rows) table (h, rest) =
      rw (insert_row_same table row h.0 h.1) (present-put_rows rows table rest)

  -- Inserting the same rows again leaves the table as it is.
  pub insert_rows_again :
      (table : Dict K V) (rows : List (K × V))
      → (insert_rows (insert_rows table rows).table rows).table ≡ (insert_rows table rows).table
  insert_rows_again table rows =
      rw (table-insert_rows, table-insert_rows)
        (present-put_rows rows (put_rows table rows) (all-put_rows rows table))
