-- ===== src/PageState/Latest.antt =====
-- processors/page_state.py: wiki.page-latest shows the latest edit of each page.
use wikistream_kafka.Prelude.{
  ℕ, ◌<◌, ◌≡◌, refl, sym, ◌∙◌, ◌⊎◌, inl, inr, String, true, Option, none, some, List, [], ◌∷◌,
  arith, nat_eq, string_eq, ◌==◌, Bool-cases, Option-cases, In,
}
use wikistream_kafka.Dict
use wikistream_kafka.Dict.{Dict}
use wikistream_kafka.PageLatest.{Wire, PageLatest, IsSound, page_update}
use wikistream_kafka.Models.{CleanEvent}
use wikistream_kafka.PageState.{
  is_newer, is_stale, Produced, Message, PageState, load_applied, value_of, apply_update, handle,
}
use wikistream_kafka.PageState.Guard.{
  later_time, after, highest, whole, load_all, load_applied-whole, get-load_all,
}
use wikistream_kafka.PageState.Compaction.{Compacts, InOrder, All-Compacts, highest-Compacts}
use wikistream_kafka.PageState.Reached.{Topic, Reach, Reach-Holds}

-- Whatever messages an instance handles, in whatever order they come, each in a transaction that
-- commits, and through any rebalances and restarts, the records of a page in wiki.page-latest never
-- go back in time: a record, tombstones included, is never followed by an older one of the same
-- page. Compaction may remove any record that a later one of the page follows, but not a tombstone
-- that is the page's last record; each load of the guard is taken to read its whole partition, and
-- the JSON text of a record to read back with the record's event time.
pub records-InOrder :
    {w : Wire} {s : PageState} {topic : Topic}
    → IsSound w
    → Reach w s topic
    → (p : ℕ) → InOrder (topic p)
records-InOrder {w} sound r p = (Reach-Holds w sound r p).order

-- A load that reads the whole output partition, as it is or with records removed that a later one of
-- the page follows, gives each page the same time as the guard of the instance that wrote the
-- records, each in a transaction that commits. A tombstone that is the page's last record is taken
-- not to be removed, and the JSON text of a record to read back with the record's event time.
pub guard_rebuilt :
    {w : Wire} {s : PageState} {topic : Topic}
    → IsSound w
    → Reach w s topic
    → (p : ℕ) (applied : Dict String ℕ) → Dict.get s.applied p ≡ some applied
    → (kept : List Produced) → Compacts (topic p) kept
    → (rebuilt : Dict String ℕ) × (load_applied w (whole kept) ≡ some rebuilt)
      × ((key : String) → Dict.get rebuilt key ≡ Dict.get applied key)
guard_rebuilt {w} {topic} sound r p applied got kept c =
    let h = Reach-Holds w sound r p in
    (
      load_all w kept,
      load_applied-whole w kept,
      λ key.
          get-load_all w kept key (All-Compacts _ c h.timed)
          ∙ highest-Compacts c h.order key none
          ∙ sym (h.guard applied got key),
    )

-- A record of the page with exactly that time.
abbrev pub HasRecord : String → List Produced → ℕ → Type 0
HasRecord key records u = (r : Produced) × In r records × (r.key ≡ key) × (r.timestamp ≡ u)

after-or :
    (key : String) (o : Option ℕ) (r : Produced) (u : ℕ)
    → after key o r ≡ some u
    → ((r.key ≡ key) × (r.timestamp ≡ u)) ⊎ (o ≡ some u)
unfolding after later_time
after-or key o r u h = elim (Bool-cases (r.key == key)) [
  | inl e ↦ elim (Bool-cases (is_newer o r.timestamp)) [
    | inl n ↦ inl ((string_eq.same_iff r.key key).0 e, ground arith)
    | inr n ↦ inr (ground arith)
  ]
  | inr e ↦ inr (ground arith)
]

-- The highest time is the time of a record, or the time started from.
highest-HasRecord :
    (key : String) (records : List Produced) (o : Option ℕ) (u : ℕ)
    → highest key records o ≡ some u
    → HasRecord key records u ⊎ (o ≡ some u)
unfolding highest
highest-HasRecord key [] o u h = inr h
highest-HasRecord key (r ∷ rest) o u h = elim (highest-HasRecord key rest (after key o r) u h) [
  | inl (q, m, k, t) ↦ inl (q, inr m, k, t)
  | inr a ↦ elim (after-or key o r u a) [ inl (k, t) ↦ inl (r, inl refl, k, t) | inr b ↦ inr b ]
]

-- What `handle` does with an event that changes a page: it writes the event's record or tombstone
-- with the event's time, or the page already has a newer record and nothing is written.
abbrev pub IsDecided :
    Wire → List Produced → String → Option PageLatest → ℕ → List Produced → Type 0
IsDecided w records key latest t out =
    (out ≡ record { key = key; value = value_of w latest; timestamp = t } ∷ [])
    ⊎ ((out ≡ []) × ((r : Produced) × In r records × (r.key ≡ key) × (t < r.timestamp)))

stale_record :
    (applied : Dict String ℕ) (records : List Produced) (key : String) (t : ℕ)
    → ((k : String) → Dict.get applied k ≡ highest k records none)
    → is_stale applied key t ≡ true
    → (r : Produced) × In r records × (r.key ≡ key) × (t < r.timestamp)
unfolding is_stale
stale_record applied records key t h q = elim (Option-cases (Dict.get applied key)) [
  | inl n ↦ absurd (ground arith)
  | inr (u, g) ↦ elim (highest-HasRecord key records none u (sym (h key) ∙ g)) [
    | inl (r, m, k, e) ↦ (r, m, k, ground arith)
    | inr n ↦ absurd (ground arith)
  ]
]

apply_update-IsDecided :
    (w : Wire) (s : PageState) (p : ℕ) (key : String) (latest : Option PageLatest) (t : ℕ)
    (applied : Dict String ℕ) (records : List Produced)
    → Dict.get s.applied p ≡ some applied
    → ((k : String) → Dict.get applied k ≡ highest k records none)
    → IsDecided w records key latest t (apply_update w s p key latest t).1
unfolding apply_update Dict.get_or
apply_update-IsDecided w s p key latest t applied records got h =
    elim (Bool-cases (is_stale applied key t)) [
      | inl q ↦
          inr (rw (apply_update, Dict.get_or, got, q) refl, stale_record applied records key t h q)
      | inr q ↦ inl (rw (apply_update, Dict.get_or, got, q) refl)
    ]

-- A message of an assigned partition whose event changes the page `key` at a time `t` is handled;
-- its record or tombstone is written with that time, unless the partition holds a newer record of
-- the page, and then nothing is written. The JSON text of a record is taken to read back with
-- the record's event time.
pub handle-IsDecided :
    {w : Wire} {s : PageState} {topic : Topic}
    → IsSound w
    → Reach w s topic
    → (m : Message) (applied : Dict String ℕ) → Dict.get s.applied m.partition ≡ some applied
    → (e : CleanEvent) → w.clean_from_json m.value ≡ some e
    → (key : String) (latest : Option PageLatest) → page_update w e ≡ some (key, latest)
    → (t : ℕ) → w.event_ms e.event_time ≡ some t
    → (y : PageState × List Produced) × (handle w s m ≡ some y)
      × IsDecided w (topic m.partition) key latest t y.1
unfolding handle
handle-IsDecided {w} {s} {topic} sound r m applied got e q key latest u t h = (
  apply_update w s m.partition key latest t,
  rw (handle, q, u, h) refl,
  apply_update-IsDecided w s m.partition key latest t applied (topic m.partition) got
      ((Reach-Holds w sound r m.partition).guard applied got),
)
