-- ===== src/Web/Pages/Table.antt =====
-- web/pages.py: the store is the table of the topic, however far Kafka has compacted it.
use wikistream_kafka.Prelude.{
  ℕ, ◌≡◌, refl, ap, ◌∙◌, inl, inr, String, true, Option, none, some, List, [], ◌∷◌, ◌==◌, same_refl,
  if◌then◌else◌, All, In, false, subst, string_eq, Bool-cases,
}
use wikistream_kafka.Dict
use wikistream_kafka.Dict.{Dict, get-put, get-remove}
use wikistream_kafka.Models.{key_for}
use wikistream_kafka.PageLatest.{PageLatest}
use wikistream_kafka.PageState.{Produced}
use wikistream_kafka.PageState.Compaction as Compaction
use wikistream_kafka.PageState.Compaction.{Compacts, drop}
use wikistream_kafka.Web.Pages.{
  PageStore, put_page, apply, Polled, record_read, follow_from, follow, get,
}

-- What Kafka removes of the tombstones once they have aged out: one goes when no record of its page
-- is left before it. `before` are the records that are left so far.
pub data Expires : List Produced → List Produced → List Produced → Type 0 where
  nothing : {before : List Produced} → Expires before [] []
  keep :
      {before xs ys : List Produced}
      → (r : Produced) → Expires (r ∷ before) xs ys
      → Expires before (r ∷ xs) (r ∷ ys)
  expire :
      {before xs ys : List Produced}
      → (r : Produced) → r.value ≡ none
      → All (λ q. (q.key == r.key) ≡ false) before
      → Expires before xs ys
      → Expires before (r ∷ xs) ys

module _ (from_json : String → Option PageLatest) where
  -- The polls that bring these records, one each.
  abbrev pub reads : List Produced → List Polled
  reads [] = []
  reads (r ∷ records) = record_read (some r.key) r.value ∷ reads records

  abbrev pub ReadableValue : Option String → Type 0
  ReadableValue none = Unit
  ReadableValue (some json) = (page : PageLatest) × (from_json json ≡ some page)

  abbrev pub IsReadable : Produced → Type 0
  IsReadable r = ReadableValue r.value

  -- What a record makes of the entry of a key: the record's own page, none for a tombstone.
  unfoldable pub page_in : Option String → Option PageLatest
  page_in none = none
  page_in (some json) = from_json json

  -- The entry of a key after the records, from what it was before.
  unfoldable pub latest : String → Option PageLatest → List Produced → Option PageLatest
  latest key before [] = before
  latest key before (r ∷ records) =
      latest key (if r.key == key then page_in r.value else before) records

  -- A later record of the key decides.
  overwritten :
      (records : List Produced) (q : Produced) (key : String) (before other : Option PageLatest)
      → In q records
      → q.key ≡ key
      → latest key before records ≡ latest key other records
  unfolding latest
  overwritten [] q key before other m e = absurd m
  overwritten (r ∷ records) q key before other (inl same) e =
      let own : (r.key == key) ≡ true = rw (← same, e) (same_refl key) in rw own refl
  overwritten (r ∷ records) q key before other (inr m) e =
      overwritten records q key (if r.key == key then page_in r.value else before)
        (if r.key == key then page_in r.value else other) m e

  latest-Compacts :
      {xs ys : List Produced}
      → Compacts xs ys
      → (key : String) (before : Option PageLatest) → latest key before ys ≡ latest key before xs
  unfolding latest
  latest-Compacts Compaction.nothing key before = refl
  latest-Compacts (Compaction.keep r c) key before =
      latest-Compacts c key (if r.key == key then page_in r.value else before)
  latest-Compacts (drop {xs} {ys} r q m e c) key before = elim (Bool-cases (r.key == key)) [
    | inl own ↦
        latest-Compacts c key before
        ∙ overwritten xs q key before (page_in r.value) m (e ∙ (string_eq.same_iff r.key key).0 own)
        ∙ rw own refl
    | inr other ↦ latest-Compacts c key before ∙ rw other refl
  ]

  latest-Expires :
      {before xs ys : List Produced}
      → Expires before xs ys
      → (key : String) (o : Option PageLatest)
      → (All (λ q. (q.key == key) ≡ false) before → o ≡ none)
      → latest key o ys ≡ latest key o xs
  unfolding latest page_in
  latest-Expires nothing key o h = refl
  latest-Expires (keep r c) key o h =
      latest-Expires c key (if r.key == key then page_in r.value else o) (λ all. rw all.0 (h all.1))
  latest-Expires (expire {before} r tombstone first c) key o h = elim (Bool-cases (r.key == key)) [
    | inl own ↦
        let unseen : All (λ q. (q.key == key) ≡ false) before =
          subst (λ (k : String). All (λ q. (q.key == k) ≡ false) before)
            ((string_eq.same_iff r.key key).0 own) first in
        latest-Expires c key o h ∙ rw (own, tombstone, h unseen) refl
    | inr other ↦ latest-Expires c key o h ∙ rw other refl
  ]

  get-apply :
      (s : PageStore) (own : String) (value : Option String) (key : String)
      → ReadableValue value
      → Dict.get (apply from_json s (some own) value).pages key
        ≡ (if own == key then page_in value else Dict.get s.pages key)
  unfolding apply put_page page_in
  get-apply s own none key readable = get-remove s.pages own key
  get-apply s own (some json) key (page, reads_back) =
      rw (reads_back, put_page) (get-put s.pages own key page)

  get-follow_from :
      (records : List Produced) (s : PageStore) (key : String)
      → All IsReadable records
      → Dict.get (follow_from from_json s (reads records)).0.pages key
        ≡ latest key (Dict.get s.pages key) records
  unfolding follow_from latest
  get-follow_from [] s key h = refl
  get-follow_from (r ∷ records) s key (readable, h) =
      get-follow_from records (apply from_json s (some r.key) r.value) key h
      ∙ ap (λ o. latest key o records) (get-apply s r.key r.value key readable)

  -- Once the store has read the topic from its beginning, the entry of every page is that of the
  -- page's last record among all that were ever written, and none if that record is a tombstone or
  -- there is no record. Before the store reads, Kafka may have removed records that a later record
  -- of the page follows, and then tombstones that no record of the page is left before; the records
  -- that are left are taken to be readable.
  pub follow_compacted :
      {written compacted kept : List Produced} (s : PageStore) (partitions : ℕ)
      → Compacts written compacted
      → Expires [] compacted kept
      → All IsReadable kept
      → (wiki title : String)
      → get (follow from_json s partitions (reads kept)).0 wiki title
        ≡ latest (key_for wiki title) none written
  unfolding follow Dict.get get
  follow_compacted {written} {compacted} {kept} s partitions c x readable wiki title =
      get-follow_from kept _ (key_for wiki title) readable
      ∙ latest-Expires x (key_for wiki title) none (λ all. refl)
      ∙ latest-Compacts c (key_for wiki title) none
