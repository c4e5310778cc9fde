-- ===== src/Web/App.antt =====
-- web/app.py: the routes, with their bounds and cache keys; web/db.py: one use of a connection.
use wikistream_kafka.Prelude.{
  ℕ, String, Bool, true, false, not, ◌&&◌, Option, none, some, List, [], ◌∷◌, leb, ◌==◌,
  if◌then◌else◌, string_eq, nat_eq,
}
use wikistream_kafka.PageLatest.{PageLatest}
use wikistream_kafka.Web.Queries.{clamp_minutes, max_minutes, Edit, Format}
use wikistream_kafka.Web.Feeds.{Filters, LatestEdits, latest_edits}
use wikistream_kafka.Web.Pages as Pages
use wikistream_kafka.Web.Pages.{PageStore, Stats}

-- An answer with a body, or a status code.
pub data Response {ℓ} (A : Type ℓ) : Type ℓ where
  ok : A → Response A
  status : ℕ → Response A

-- `Query(…, ge=least, le=most)`: a number out of bounds is a 422.
abbrev pub bounded {ℓ} : {A : Type ℓ} → ℕ → ℕ → ℕ → A → Response A
bounded least most n body = if leb least n && leb n most then ok body else status 422

-- `health`: whether both answer, and the status code
unfoldable pub health : Bool → Bool → String × ℕ
health database kafka = if database && kafka then ("ok", 200) else ("degraded", 503)

-- The keys under which the answers are cached.
pub data CacheKey : Type 0 where
  overview_key : ℕ → CacheKey
  trending_key : ℕ → Option String → ℕ → CacheKey
  wikis_key : ℕ → ℕ → CacheKey
  pipeline_key : CacheKey
  alerts_key : ℕ → CacheKey

unfoldable pub overview : ℕ → Response CacheKey
overview minutes = bounded 1 max_minutes minutes (overview_key (clamp_minutes minutes))

-- `max_length=64`; the length of a text is the framework's
abbrev pub short_enough : (String → ℕ) → ℕ → Option String → Bool
short_enough length most none = true
short_enough length most (some s) = leb (length s) most

unfoldable pub trending : (String → ℕ) → ℕ → Option String → ℕ → Response CacheKey
trending length minutes wiki limit =
    if (leb 1 minutes && leb minutes max_minutes) && short_enough length 64 wiki
    then bounded 1 50 limit (trending_key (clamp_minutes minutes) wiki limit)
    else status 422

unfoldable pub wikis : ℕ → ℕ → Response CacheKey
wikis minutes limit =
    if leb 1 minutes && leb minutes max_minutes
    then bounded 1 100 limit (wikis_key (clamp_minutes minutes) limit)
    else status 422

unfoldable pub alerts : ℕ → Response CacheKey
alerts limit = bounded 1 200 limit (alerts_key limit)

-- not cached
unfoldable pub edits :
    (String → ℕ) → Format → (String → String) → List Edit → Filters → ℕ → Response LatestEdits
edits length format underscored rows f limit =
    if short_enough length 64 f.wiki
    then bounded 1 200 limit (latest_edits format underscored rows f limit)
    else status 422

-- `page_json` has the fields of a PageLatest.
pub record Found : Type 0 where
  pub snapshot : Stats
  pub pages : List PageLatest

unfoldable pub search_pages :
    (String → ℕ)
    → (later within : String → String → Bool) → (String → String)
    → PageStore
    → String
    → Option String
    → ℕ
    → Response Found
search_pages length later within folded s q wiki limit =
    if leb (length q) 200 && short_enough length 64 wiki
    then bounded 1 100 limit (record {
      snapshot = Pages.stats s;
      pages = Pages.search later within s (folded q) wiki limit;
    })
    else status 422

unfoldable pub get_page : PageStore → String → String → Response PageLatest
get_page s wiki title = elim (Pages.get s wiki title) [ none ↦ status 404 | some p ↦ ok p ]

-- The files that end in .json, in the order of their names; one that cannot be read is left out.
unfoldable pub benchmarks : List (String × Option String) → List (String × String)
benchmarks [] = []
benchmarks ((stem, none) ∷ files) = benchmarks files
benchmarks ((stem, some json) ∷ files) = (stem, json) ∷ benchmarks files

-- What a path of the site is answered with: a file below the built site, or its index.
pub data Served : Type 0 where
  file : String → Served
  index : Served

-- `resolve` follows `..` and links, and `below` tests that a path lies in the built site.
unfoldable pub frontend :
    (resolve : String → String) → (is_file below : String → Bool) → String → Served
frontend resolve is_file below path =
    let candidate = resolve path in
    if not (path == "") && (is_file candidate && below candidate) then file candidate else index

-- One use of a pooled connection: it works, the statement fails, or the connection breaks.
pub data Use {ℓ} (A : Type ℓ) : Type ℓ where
  works : A → Use A
  fails : Use A
  breaks : Use A

-- `cursor`: whether the connection is closed instead of returned to the pool, and the rows.
unfoldable pub cursor {ℓ} : {A : Type ℓ} → Use A → Bool × Option A
cursor (works rows) = (false, some rows)
cursor fails = (false, none)
cursor breaks = (true, none)

-- `one` of the rows
unfoldable pub one {ℓ} : {A : Type ℓ} → List A → Option A
one [] = none
one (row ∷ rows) = some row

unfoldable pub ping : Use (List ℕ) → Bool
ping answer = elim (cursor answer).1 [
  | none ↦ false
  | some rows ↦ elim (one rows) [ none ↦ false | some n ↦ n == 1 ]
]
