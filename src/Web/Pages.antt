-- ===== src/Web/Pages.antt =====
-- web/pages.py: the latest state of every page, read from the compacted topic.
pub mod Table
use wikistream_kafka.Prelude.{
  ℕ, ◌+◌, String, Bool, true, false, not, ◌&&◌, ◌||◌, Option, none, some, List, [], ◌∷◌, length,
  take, ltb, leb, ◌==◌, filter, insert, if◌then◌else◌, string_eq, nat_eq,
}
use wikistream_kafka.Dict
use wikistream_kafka.Dict.{Dict, values}
use wikistream_kafka.Models.{key_for}
use wikistream_kafka.PageLatest.{PageLatest}
use wikistream_kafka.Web.Feeds.{order_by, given, matches}

pub record PageStore : Type 0 where
  pub pages : Dict String PageLatest
  pub records_read : ℕ
  pub tombstones : ℕ
  pub partitions : ℕ
  pub at_end : List ℕ
  pub error : Option String
  pub stopped : Bool

abbrev pub page_store : PageStore
page_store = record {
  pages = [];
  records_read = 0;
  tombstones = 0;
  partitions = 0;
  at_end = [];
  error = none;
  stopped = false;
}

unfoldable pub stop : PageStore → PageStore
stop s = record s { stopped = true }

-- The value, with the reader of a PageLatest, `none` for text that is no such record
unfoldable pub put_page : (String → Option PageLatest) → PageStore → String → String → PageStore
put_page from_json s key json = elim (from_json json) [
  | none ↦ s
  | some page ↦ record s { pages = Dict.put s.pages key page }
]

unfoldable pub apply :
    (String → Option PageLatest) → PageStore → Option String → Option String → PageStore
apply from_json s none value = s
apply from_json s (some key) none = record s {
  records_read = s.records_read + 1;
  tombstones = s.tombstones + 1;
  pages = Dict.remove s.pages key;
}
apply from_json s (some key) (some json) =
    put_page from_json (record s { records_read = s.records_read + 1 }) key json

-- What a `poll` of the following consumer brings.
pub data Polled : Type 0 where
  nothing : Polled
  partition_eof : ℕ → Polled
  passing : Polled
  fatal : String → Polled
  record_read : Option String → Option String → Polled

-- The loop of `_follow`; whether it goes on, or an exception ends it.
unfoldable pub follow_from :
    (String → Option PageLatest) → PageStore → List Polled → PageStore × Option String
follow_from from_json s [] = (s, none)
follow_from from_json s (nothing ∷ rest) = follow_from from_json s rest
follow_from from_json s (passing ∷ rest) = follow_from from_json s rest
follow_from from_json s (partition_eof p ∷ rest) =
    follow_from from_json (record s { at_end = insert s.at_end p }) rest
follow_from from_json s (fatal message ∷ rest) = (s, some message)
follow_from from_json s (record_read key value ∷ rest) =
    follow_from from_json (apply from_json s key value) rest

-- `_follow`: what was read before is forgotten, and the topic is read from its beginning.
unfoldable pub follow :
    (String → Option PageLatest) → PageStore → ℕ → List Polled → PageStore × Option String
follow from_json s partitions polls =
    follow_from from_json
      (record s {
        pages = [];
        records_read = 0;
        tombstones = 0;
        partitions = partitions;
        at_end = [];
        error = none;
      })
      polls

-- one round of `_run`
unfoldable pub run_once : (String → Option PageLatest) → PageStore → ℕ → List Polled → PageStore
run_once from_json s partitions polls =
    let (s', raised) = follow from_json s partitions polls in
    elim raised [ none ↦ s' | some message ↦ record s' { error = some message } ]

unfoldable pub get : PageStore → String → String → Option PageLatest
get s wiki title = Dict.get s.pages (key_for wiki title)

-- `needle` is `query.casefold().strip()`, and `within` the test of a needle in a casefolded
-- title; `later` compares the texts of two times.
unfoldable pub search :
    (later within : String → String → Bool)
    → PageStore
    → (needle : String) → Option String
    → ℕ
    → List PageLatest
search later within s needle wiki limit =
    let matching =
      filter (λ p. matches (given wiki) p.wiki && (needle == "" || within needle p.title))
        (values s.pages) in
    take limit (order_by (λ a b. later b.event_time a.event_time) matching)

pub record Stats : Type 0 where
  pub pages : ℕ
  pub records_read : ℕ
  pub tombstones : ℕ
  -- the two numbers of which `records_per_page` is the rounded quotient
  pub records_per_page : Option (ℕ × ℕ)
  pub caught_up : Bool
  pub error : Option String

unfoldable pub stats : PageStore → Stats
stats s =
    let pages = length s.pages in
    record {
      pages = pages;
      records_read = s.records_read;
      tombstones = s.tombstones;
      records_per_page = if pages == 0 then none else some (s.records_read, pages);
      caught_up = ltb 0 s.partitions && leb s.partitions (length s.at_end);
      error = s.error;
    }

-- `wait_until_caught_up`, over the states that its rounds see before the deadline
unfoldable pub wait_until_caught_up : List PageStore → Bool
wait_until_caught_up [] = false
wait_until_caught_up (s ∷ states) =
    let rest = wait_until_caught_up states in if (stats s).caught_up then true else rest
