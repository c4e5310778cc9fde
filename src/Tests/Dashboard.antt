-- ===== src/Tests/Dashboard.antt =====
-- web/ and admin/ on small inputs.
use wikistream_kafka.Prelude.{
  ℕ, ◌+◌, ◌-◌, ◌≤◌, ◌<◌, ◌≡◌, refl, ◌⊎◌, inl, String, Bool, true, false, Option, none, some, List,
  [], ◌∷◌, map, length, contains, insert, filter, All, In, string_eq, nat_eq, ◌==◌, arith,
}
use wikistream_kafka.Prelude.Int.{pos, ◌-ℤ◌, ◌+ℤ◌}
use wikistream_kafka.Dict
use wikistream_kafka.Models.{key_for}
use wikistream_kafka.Offset.{offset_eq}
use wikistream_kafka.PageLatest.{PageLatest}
use wikistream_kafka.PageState.{Produced}
use wikistream_kafka.PageState.Compaction.{nothing, keep, drop}
use wikistream_kafka.Web.Queries.{
  clamp_minutes, trunc, series_from, minute_series, start_of_window, window_edits, tally,
  per_minute, distinct, newest, page_eq, Edit, Format, overview,
}
use wikistream_kafka.Web.Queries.Series.{sum, occurrences, overview_accounts}
use wikistream_kafka.Web.Feeds.{
  insert_in_order, order_by, clamp_limit, window_totals, sums, top_pages, page_minutes,
  trending_page, trending, Total, Filters, selects, latest_rows, latest_edits, last_time, edit_view,
  page_url,
}
use wikistream_kafka.Web.Feeds.Paging.{paging_skips, StartsEmpty, trending-StartsEmpty}
use wikistream_kafka.Web.Pages.{
  page_store, put_page, apply, follow_from, follow, get, search, stats,
}
use wikistream_kafka.Web.Pages.Table as Table
use wikistream_kafka.Web.Pages.Table.{reads, page_in, latest, expire, follow_compacted}
use wikistream_kafka.Web.Cache as Cache
use wikistream_kafka.Web.Cache.{max_entries, trim, oldest, kept}
use wikistream_kafka.Web.Cache.Fresh.{start, call, answers_fresh}
use wikistream_kafka.Web.Cluster.{
  lag_of, partition_lags, caught_up, total_lag, offsets_of, group_lag,
}
use wikistream_kafka.Config.{TopicSpec, update, topic_name, topics}
use wikistream_kafka.Admin as Admin
use wikistream_kafka.Admin.{
  Topic, topic_config, for_each, new_topic, create_one, create_missing, set_config, sync_one,
  sync_configs, create_topics, fill, backfill,
}
use wikistream_kafka.Admin.Converges.{synced}
use wikistream_kafka.Admin.Backfill.{resolve, backfill_complete}

program : Unit {0}
unfolding contains insert filter Dict.get Dict.put Dict.remove Dict.get_or key_for ◌-ℤ◌ ◌+ℤ◌
    clamp_minutes trunc series_from minute_series start_of_window window_edits tally per_minute
    distinct newest overview occurrences insert_in_order order_by clamp_limit window_totals sums
    top_pages page_minutes trending_page trending selects latest_rows latest_edits last_time
    edit_view page_url put_page apply follow_from follow get search stats page_in latest Cache.get
    trim oldest lag_of partition_lags caught_up total_lag offsets_of group_lag update topic_name
    topics topic_config for_each create_one create_missing set_config sync_one sync_configs
    create_topics synced fill backfill resolve
program = tt

abbrev format : Format
format = record { ratio = λ a b d. ""; iso = λ t. ""; quote = λ s. s }

abbrev edit : String → ℕ → Edit
edit id t = record {
  event_id = id;
  wiki = "enwiki";
  title = "A";
  type = "edit";
  username = "u";
  bot = false;
  minor = false;
  is_revert = none;
  comment = "";
  event_time = t;
  length_old = some (pos 9);
  length_new = some (pos 4);
  server_name = "";
  ingested_at = t + 500;
}

-- Two edits of one second and one before, ten minutes after the epoch and half a minute later.
abbrev edits : List Edit
edits = edit "a" 610000 ∷ edit "b" 610000 ∷ edit "c" 500000 ∷ []

abbrev now : ℕ
now = 630000

counts_all : (overview format edits [] 5 now).edits ≡ 3
unfolding program
counts_all = refl

charts : (overview format edits [] 5 now).per_minute ≡ 0 ∷ 0 ∷ 0 ∷ 1 ∷ 0 ∷ []
unfolding program
charts = refl

overview_accounts_example :
    let r = overview format edits [] 5 now in
    r.edits
    ≡ sum r.per_minute
      + occurrences
          (map
            (λ e. trunc e.event_time)
            (window_edits edits (start_of_window now (clamp_minutes 5)) now))
          (trunc now)
unfolding program
overview_accounts_example = overview_accounts format edits [] 5 now (omega arith)

abbrev everything : Filters
everything = record { wiki = none; humans_only = false; reverts_only = false; before = none }

same : String → String
same s = s

-- The first page of one edit, and the next one: "b" is on neither.
first_page : (latest_edits format same edits everything 1).rows ≡ edit "a" 610000 ∷ []
unfolding program
first_page = refl

next_page :
    (latest_edits format same edits (record everything { before = some 610000 }) 1).rows
    ≡ edit "c" 500000 ∷ []
unfolding program
next_page = refl

-- The next page with what the first one hands out.
paging_skips_example :
    ¬ In
      (edit "b" 610000)
      (latest_edits format same edits
        (record everything { before = (latest_edits format same edits everything 1).next_before })
        1).rows
paging_skips_example =
    paging_skips format same edits everything 1 1 [] (edit "a" 610000) (edit "b" 610000) first_page
      refl

abbrev totals : List Total
totals =
    record { wiki = "enwiki"; title = "A"; minute = 360000; edit_count = 4 }
    ∷ record { wiki = "enwiki"; title = "A"; minute = 300000; edit_count = 7 }
    ∷ []

abbrev never : String → String → Bool
never a b = false

shows :
    map (λ p. p.per_minute) (trending never totals 5 none 3 now).pages
    ≡ (0 ∷ 4 ∷ 0 ∷ 0 ∷ 0 ∷ []) ∷ []
unfolding program
shows = refl

trending-StartsEmpty_example :
    All (λ p. StartsEmpty p.per_minute) (trending never totals 5 none 3 now).pages
trending-StartsEmpty_example = trending-StartsEmpty never totals 5 none 3 now

abbrev page : PageLatest
page = record {
  wiki = "enwiki";
  title = "A";
  event_id = "e";
  type = "edit";
  user = "u";
  bot = false;
  minor = false;
  is_revert = false;
  comment = "";
  event_time = "T";
  rev_id = none;
  length = none;
}

abbrev from_json : String → Option PageLatest
from_json s = some page

abbrev old_record : Produced
old_record = record { key = "enwiki:A"; value = none; timestamp = 1 }

abbrev new_record : Produced
new_record = record { key = "enwiki:A"; value = some "json"; timestamp = 2 }

-- The tombstone of another page, which ages out.
abbrev gone_record : Produced
gone_record = record { key = "enwiki:B"; value = none; timestamp = 1 }

follow_compacted_example :
    get (follow from_json page_store 6 (reads from_json (new_record ∷ []))).0 "enwiki" "A"
    ≡ latest from_json (key_for "enwiki" "A") none (gone_record ∷ old_record ∷ new_record ∷ [])
follow_compacted_example =
    follow_compacted from_json page_store 6
      (keep gone_record (drop old_record new_record (inl refl) refl (keep new_record nothing)))
      (expire gone_record refl tt (Table.keep new_record Table.nothing)) ((page, refl), tt) "enwiki"
      "A"

-- The second call, three seconds later, is answered from the cache.
abbrev cached : Dict.Dict String (ℕ × ℕ)
cached = (Cache.get 5000 [] "k" 1000 1000 42).0

answers_fresh_example :
    let (after, answer) = Cache.get 5000 cached "k" 4000 4000 43 in
    ((answer ≡ 43)
      ⊎ ((t : ℕ) × In {A = String × ℕ × ℕ} ("k", t, answer) (("k", 1000, 42) ∷ [])
          × (4000 - t < 5000)))
    × (length after ≤ max_entries)
unfolding program
answers_fresh_example = answers_fresh 5000 (call start "k" 1000 1000 42) "k" 4000 4000 43

abbrev specs : List TopicSpec
specs =
    record { name = "wiki.raw"; partitions = 6; config = ("retention.ms", "1") ∷ [] }
    ∷ record { name = "wiki.dlq"; partitions = 1; config = [] }
    ∷ []

abbrev cluster : Admin.Cluster
cluster = ("wiki.raw", record { partitions = 3; config = ("a", "b") ∷ [] }) ∷ []

abbrev always : String → Bool
always name = true

updates :
    create_topics "2" always specs cluster
    ≡ (
      "wiki.raw",
      record {
        partitions = 3;
        config = ("a", "b") ∷ ("min.insync.replicas", "2") ∷ ("retention.ms", "1") ∷ [];
      },
    )
      ∷ ("wiki.dlq", record { partitions = 1; config = ("min.insync.replicas", "2") ∷ [] })
      ∷ []
unfolding program
updates = refl

abbrev undid : String → Bool
undid s = s == "undid"

abbrev rows : List Admin.Edit
rows =
    record { event_id = "a"; type = "edit"; comment = "undid"; is_revert = none }
    ∷ record { event_id = "b"; type = "log"; comment = "undid"; is_revert = none }
    ∷ record { event_id = "c"; type = "edit"; comment = ""; is_revert = some true }
    ∷ []

flags : map (λ e. e.is_revert) (map (resolve undid) rows) ≡ some true ∷ some false ∷ some true ∷ []
unfolding program
flags = refl

backfill_complete_example : backfill undid 1 3 rows ≡ some (map (resolve undid) rows)
unfolding program
backfill_complete_example = backfill_complete undid 1 rows (omega arith)
