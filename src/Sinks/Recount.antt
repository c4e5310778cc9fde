-- ===== src/Sinks/Recount.antt =====
-- sinks/db.py: trending totals that are written again.
use wikistream_kafka.Prelude.{
  ℕ, zero, suc, ◌+◌, ◌-◌, ◌≤◌, ◌≡◌, refl, sym, ap, ◌∙◌, inl, inr, Option, none, some, List, [], ◌∷◌,
  contains, ◌==◌, same_refl, All-map, if◌then◌else◌, All, In, All-In, arith, Bool-cases,
}
use wikistream_kafka.Dict
use wikistream_kafka.Dict.{Dict, get-put, put_same}
use wikistream_kafka.Windows.{WindowKey, ClosedWindow, key_eq}
use wikistream_kafka.Sinks.{
  Written, page_size, row_key, greatest, total, upsert_pages, upsert_trending,
}

-- The table that the totals make, when no statement fails.
unfoldable put_counts : Dict WindowKey ℕ → List ClosedWindow → Dict WindowKey ℕ
put_counts table [] = table
put_counts table (w ∷ counts) = put_counts (greatest table w) counts

-- The table has at least this total.
abbrev Holds : Dict WindowKey ℕ → ClosedWindow → Type 0
Holds table w = (v : ℕ) × (Dict.get table (row_key w) ≡ some v) × (w.count ≤ v)

table-upsert_pages :
    (counts : List ClosedWindow) (table : Dict WindowKey ℕ) (rowcount : ℕ)
    (touched : List WindowKey) (room : ℕ) (w : Written (Dict WindowKey ℕ))
    → upsert_pages table rowcount touched room counts ≡ some w
    → w.table ≡ put_counts table counts
unfolding upsert_pages put_counts
table-upsert_pages [] table rowcount touched room w h =
    ap (λ o. elim o [ none ↦ table | some x ↦ x.table ]) (sym h)
table-upsert_pages (c ∷ counts) table rowcount touched zero w h =
    table-upsert_pages counts (greatest table c) 1 (row_key c ∷ []) (page_size - 1) w h
table-upsert_pages (c ∷ counts) table rowcount touched (suc room) w h =
    elim (Bool-cases (contains touched (row_key c))) [
      | inl q ↦ absurd (ground arith)
      | inr q ↦
          table-upsert_pages counts (greatest table c) (rowcount + 1) (row_key c ∷ touched) room w
            (rw q at h)
    ]

get-greatest :
    (table : Dict WindowKey ℕ) (w : ClosedWindow) (k : WindowKey)
    → Dict.get (greatest table w) k ≡ (
        if row_key w == k
        then some (total (Dict.get table (row_key w)) w.count)
        else Dict.get table k)
unfolding greatest
get-greatest table w k = get-put table (row_key w) k _

total_le : (o : Option ℕ) (n : ℕ) → n ≤ total o n
total_le none n = omega arith
total_le (some m) n = omega arith

kept-greatest :
    (table : Dict WindowKey ℕ) (w c : ClosedWindow) → Holds table c → Holds (greatest table w) c
kept-greatest table w c (v, e, le) = elim (Bool-cases (row_key w == row_key c)) [
  | inl q ↦
      let old : Dict.get table (row_key w) ≡ some v =
        ap (Dict.get table) ((key_eq.same_iff (row_key w) (row_key c)).0 q) ∙ e in
      (total (Dict.get table (row_key w)) w.count, rw (get-greatest, q) refl, rw old (omega arith))
  | inr q ↦ (v, rw (get-greatest, q) e, le)
]

greatest-Holds : (table : Dict WindowKey ℕ) (w : ClosedWindow) → Holds (greatest table w) w
greatest-Holds table w = (
  total (Dict.get table (row_key w)) w.count,
  rw (get-greatest, same_refl (row_key w)) refl,
  total_le (Dict.get table (row_key w)) w.count,
)

kept-put_counts :
    (counts : List ClosedWindow) (table : Dict WindowKey ℕ) (c : ClosedWindow)
    → Holds table c
    → Holds (put_counts table counts) c
unfolding put_counts
kept-put_counts [] table c h = h
kept-put_counts (w ∷ counts) table c h =
    kept-put_counts counts (greatest table w) c (kept-greatest table w c h)

put_counts-Holds :
    (counts : List ClosedWindow) (table : Dict WindowKey ℕ)
    → All (Holds (put_counts table counts)) counts
unfolding put_counts
put_counts-Holds [] table = tt
put_counts-Holds (w ∷ counts) table = (
  kept-put_counts counts (greatest table w) w (greatest-Holds table w),
  put_counts-Holds counts (greatest table w),
)

put_counts_same :
    (counts : List ClosedWindow) (table : Dict WindowKey ℕ)
    → All (Holds table) counts
    → put_counts table counts ≡ table
unfolding put_counts
put_counts_same [] table h = refl
put_counts_same (w ∷ counts) table ((v, e, le), rest) =
    let same : greatest table w ≡ table =
      unfold greatest in
      put_same table (row_key w) (total (Dict.get table (row_key w)) w.count)
        (rw e (ap some (omega arith))) in
    rw same (put_counts_same counts table rest)

-- A minute that is counted again, with a total no greater than one already written for the same page
-- and minute.
abbrev pub Recounts : List ClosedWindow → ClosedWindow → Type 0
Recounts counts later =
    (c : ClosedWindow) × In c counts × (row_key later ≡ row_key c) × (later.count ≤ c.count)

-- When totals have been written and a restart counts the same minutes again and reaches totals that
-- are no greater, whether all or part of them, then writing the recount leaves the table as it is.
pub recount_harmless :
    (table : Dict WindowKey ℕ) (counts recount : List ClosedWindow)
    (first second : Written (Dict WindowKey ℕ))
    → upsert_trending table counts ≡ some first
    → upsert_trending first.table recount ≡ some second
    → All (Recounts counts) recount
    → second.table ≡ first.table
unfolding upsert_trending
recount_harmless table counts recount first second h k lower =
    let made = table-upsert_pages counts table 0 [] page_size first h in
    let held : All (Holds first.table) counts = rw made (put_counts-Holds counts table) in
    table-upsert_pages recount first.table 0 [] page_size second k
    ∙ put_counts_same recount first.table
        (All-map (Recounts counts) (Holds first.table) recount (below first.table held) lower)
  where
    below :
        (t : Dict WindowKey ℕ)
        → All (Holds t) counts
        → (l : ClosedWindow) → Recounts counts l
        → Holds t l
    below t held l (c, m, e, le) =
        let (v, g, more) = All-In (Holds t) counts c held m in (v, rw e g, omega arith)
