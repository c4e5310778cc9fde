-- ===== src/Web/Feeds.antt =====
-- web/queries.py: the lists that the dashboard shows: trending pages, wikis, the latest edits, alerts.
pub mod Paging
use wikistream_kafka.Prelude.{
  ℕ, zero, suc, ◌+◌, ◌-◌, min, max, String, Bool, true, false, not, ◌&&◌, ◌||◌, Option, none, some,
  List, [], ◌∷◌, map, take, ltb, leb, ◌==◌, filter, if◌then◌else◌, string_eq, nat_eq, append_text,
}
use wikistream_kafka.Prelude.Int.{ℤ, ◌-ℤ◌, pos, sub_ℕ}
use wikistream_kafka.Dict
use wikistream_kafka.Dict.{Dict}
use wikistream_kafka.Web.Queries.{
  clamp_minutes, start_of_window, in_window, window_edits, minute_series, tally, Edit, Alert,
  Format, Page, page_of, page_eq, newest,
}

-- `ORDER BY`: a stable insertion by the order of the query
module _ {ℓ} {A : Type ℓ} (before : A → A → Bool) where
  unfoldable pub insert_in_order : A → List A → List A
  insert_in_order a [] = a ∷ []
  insert_in_order a (x ∷ xs) =
      let rest = insert_in_order a xs in if before x a then x ∷ rest else a ∷ x ∷ xs

  unfoldable pub order_by : List A → List A
  order_by [] = []
  order_by (x ∷ xs) = insert_in_order x (order_by xs)

-- `max(1, min(limit, most))`
unfoldable pub clamp_limit : ℕ → ℕ → ℕ
clamp_limit limit most = max 1 (min limit most)

-- `wiki or None`, and the filter that lets every wiki pass when it is NULL
abbrev pub given : Option String → Option String
given none = none
given (some s) = if s == "" then none else some s

abbrev pub matches : Option String → String → Bool
matches none wiki = true
matches (some w) wiki = wiki == w

-- a row of `trending_minutes`
pub record Total : Type 0 where
  pub wiki : String
  pub title : String
  pub minute : ℕ
  pub edit_count : ℕ

abbrev pub page : Total → Page
page t = (t.wiki, t.title)

unfoldable pub window_totals : List Total → ℕ → ℕ → List Total
window_totals totals since now = filter (λ t. in_window since now t.minute) totals

-- `SUM(edit_count)` by page
unfoldable pub sums : List Total → Dict Page ℕ
sums [] = []
sums (t ∷ totals) =
    let counts = sums totals in
    Dict.put counts (page t) (Dict.get_or counts (page t) 0 + t.edit_count)

-- `TOP_PAGES`; `collates` is the order of the database on texts, `a` before `b`.
abbrev pub busier : (String → String → Bool) → Page × ℕ → Page × ℕ → Bool
busier collates (p, m) (q, n) =
    if m == n then (if p.0 == q.0 then collates p.1 q.1 else collates p.0 q.0) else ltb n m

unfoldable pub top_pages :
    (String → String → Bool) → List Total → ℕ → ℕ → Option String → ℕ → List (Page × ℕ)
top_pages collates totals since now wiki limit =
    let rows = filter (λ t. matches wiki t.wiki) (window_totals totals since now) in
    take limit (order_by (busier collates) (sums rows))

-- `PAGE_MINUTES` for one page, as the dict of `minute_series`: page and minute are the primary key.
unfoldable pub page_minutes : List Total → ℕ → ℕ → Page → Dict ℕ ℕ
page_minutes [] since now p = []
page_minutes (t ∷ totals) since now p =
    let rest = page_minutes totals since now p in
    if in_window since now t.minute && (page t == p)
    then Dict.put rest t.minute t.edit_count
    else rest

pub record TrendingPage : Type 0 where
  pub wiki : String
  pub title : String
  pub edits : ℕ
  pub per_minute : List ℕ

-- A page with no row has no series.
abbrev pub series_of : Dict ℕ ℕ → ℕ → ℕ → List ℕ
series_of [] minutes now = []
series_of (c ∷ counts) minutes now = minute_series (c ∷ counts) minutes now

pub record Trending : Type 0 where
  pub minutes : ℕ
  pub wiki : Option String
  pub newest_minute : Option ℕ
  pub pages : List TrendingPage

unfoldable pub trending_page : List Total → ℕ → ℕ → ℕ → Page × ℕ → TrendingPage
trending_page totals since now minutes (p, edits) = record {
  wiki = p.0;
  title = p.1;
  edits = edits;
  per_minute = series_of (page_minutes totals since now p) minutes now;
}

unfoldable pub trending :
    (String → String → Bool) → List Total → ℕ → Option String → ℕ → ℕ → Trending
trending collates totals asked wiki limit now =
    let minutes = clamp_minutes asked in
    let since = start_of_window now minutes in
    let top = top_pages collates totals since now (given wiki) (clamp_limit limit 50) in
    record {
      minutes = minutes;
      wiki = given wiki;
      newest_minute = newest (map (λ t. t.minute) totals);
      pages = map (trending_page totals since now minutes) top;
    }

pub record WikiCount : Type 0 where
  pub wiki : String
  pub edits : ℕ
  pub bot_edits : ℕ

abbrev pub busier_wiki : (String → String → Bool) → WikiCount → WikiCount → Bool
busier_wiki collates a b =
    if a.edits == b.edits then collates a.wiki b.wiki else ltb b.edits a.edits

-- `TOP_WIKIS`
unfoldable pub wikis : (String → String → Bool) → List Edit → ℕ → ℕ → ℕ → List WikiCount
wikis collates edits asked limit now =
    let window = window_edits edits (start_of_window now (clamp_minutes asked)) now in
    let bots = tally (map (λ e. e.wiki) (filter (λ e. e.bot) window)) in
    let rows =
      map (λ c. record { wiki = c.0; edits = c.1; bot_edits = Dict.get_or bots c.0 0 })
        (tally (map (λ e. e.wiki) window)) in
    take (clamp_limit limit 100) (order_by (busier_wiki collates) rows)

pub record Filters : Type 0 where
  pub wiki : Option String
  pub humans_only : Bool
  pub reverts_only : Bool
  pub before : Option ℕ

-- `NOT %(reverts)s OR is_revert`, where NULL does not pass
abbrev pub is_known_revert : Option Bool → Bool
is_known_revert none = false
is_known_revert (some b) = b

abbrev pub is_before : Option ℕ → ℕ → Bool
is_before none t = true
is_before (some bound) t = ltb t bound

unfoldable pub selects : Filters → Edit → Bool
selects f e =
    matches (given f.wiki) e.wiki
    && ((not f.humans_only || not e.bot)
        && ((not f.reverts_only || is_known_revert e.is_revert) && is_before f.before e.event_time))

-- `LATEST_EDITS`
unfoldable pub latest_rows : List Edit → Filters → ℕ → List Edit
latest_rows edits f limit =
    take limit (order_by (λ a b. ltb b.event_time a.event_time) (filter (selects f) edits))

unfoldable pub page_url : Format → (String → String) → String → String → Option String
page_url format underscored server_name title =
    if server_name == ""
    then none
    else some (
        append_text "https://"
          (append_text server_name (append_text "/wiki/" (format.quote (underscored title)))))

pub record EditView : Type 0 where
  pub edit : Edit
  pub size_change : Option ℤ
  pub event_time : String
  pub stored_after_ms : ℤ
  pub url : Option String

unfoldable pub edit_view : Format → (String → String) → Edit → EditView
edit_view format underscored e = record {
  edit = e;
  size_change = elim e.length_old [
    | none ↦ none
    | some old ↦ elim e.length_new [ none ↦ none | some new ↦ some (new -ℤ old) ]
  ];
  event_time = format.iso e.event_time;
  stored_after_ms = sub_ℕ e.ingested_at e.event_time;
  url = page_url format underscored e.server_name e.title;
}

-- `edits[-1]["event_time"]`
unfoldable pub last_time : List Edit → Option ℕ
last_time [] = none
last_time (e ∷ []) = some e.event_time
last_time (e ∷ x ∷ rest) = last_time (x ∷ rest)

pub record LatestEdits : Type 0 where
  pub rows : List Edit
  pub edits : List EditView
  pub next_before : Option ℕ

unfoldable pub latest_edits : Format → (String → String) → List Edit → Filters → ℕ → LatestEdits
latest_edits format underscored edits f limit =
    let rows = latest_rows edits f (clamp_limit limit 200) in
    record {
      rows = rows;
      edits = map (edit_view format underscored) rows;
      next_before = last_time rows;
    }

-- `ALERTS`
unfoldable pub alerts : List Alert → ℕ → List Alert
alerts rows limit =
    take (clamp_limit limit 200) (order_by (λ a b. ltb b.window_end a.window_end) rows)
