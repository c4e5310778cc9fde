-- ===== src/Web/Feeds/Paging.antt =====
-- web/queries.py: the first minute in the charts of the trending pages, and the edits that paging
-- through the feed leaves out.
use wikistream_kafka.Prelude.{
  ℕ, zero, suc, ◌-◌, ◌*◌, ◌≤◌, ◌<◌, ◌≡◌, refl, ap, ◌∙◌, inl, inr, String, Bool, true, ◌&&◌, Option,
  none, some, List, [], ◌∷◌, ◌++◌, map, take, ltb, leb, ◌==◌, filter, In, All, In-filter, ltb→lt,
  and-eq-true, string_eq, nat_eq, arith, Bool-cases,
}
use wikistream_kafka.Dict
use wikistream_kafka.Dict.{Dict, get-put}
use wikistream_kafka.Web.Queries.{
  clamp_minutes, minute_ms, trunc, series_from, minute_series, start_of_window, in_window, Edit,
  Format, Page, page_eq,
}
use wikistream_kafka.Web.Feeds.{
  insert_in_order, order_by, Total, page, page_minutes, series_of, trending_page, trending, Filters,
  selects, latest_rows, last_time, latest_edits,
}

-- No row of the window belongs to a minute at or before its beginning.
get-page_minutes :
    (totals : List Total) (since now m : ℕ) (p : Page)
    → m ≤ since
    → Dict.get (page_minutes totals since now p) m ≡ none
unfolding page_minutes Dict.get
get-page_minutes [] since now m p le = refl
get-page_minutes (t ∷ totals) since now m p le =
    elim (Bool-cases (in_window since now t.minute && (page t == p))) [
      | inl q ↦
          let inside : in_window since now t.minute ≡ true =
            (and-eq-true (in_window since now t.minute) (page t == p) q).0 in
          let later : since < t.minute =
            ltb→lt since t.minute (and-eq-true (ltb since t.minute) (leb t.minute now) inside).0 in
          rw (q, get-put)
            (ground (arith, nat_eq.same_iff t.minute m, get-page_minutes totals since now m p le))
      | inr q ↦ rw q (get-page_minutes totals since now m p le)
    ]

abbrev pub StartsEmpty : List ℕ → Type 0
StartsEmpty [] = Unit
StartsEmpty (n ∷ ns) = n ≡ 0

minute_series-empty :
    (counts : Dict ℕ ℕ) (minutes now : ℕ)
    → Dict.get counts (trunc now - minutes * minute_ms) ≡ none
    → StartsEmpty (minute_series counts minutes now)
unfolding minute_series series_from Dict.get_or
minute_series-empty counts zero now h = tt
minute_series-empty counts (suc n) now h = rw (h, Dict.get_or) refl

series_of-empty :
    (counts : Dict ℕ ℕ) (minutes now : ℕ)
    → Dict.get counts (trunc now - minutes * minute_ms) ≡ none
    → StartsEmpty (series_of counts minutes now)
series_of-empty [] minutes now h = tt
series_of-empty (c ∷ counts) minutes now h = minute_series-empty (c ∷ counts) minutes now h

start_le : (now minutes : ℕ) → trunc now - minutes * minute_ms ≤ start_of_window now minutes
unfolding trunc start_of_window
start_le now minutes = omega arith

All-mapped :
    {A B : Type 0} (P : B → Type 0) (f : A → B) (xs : List A)
    → ((a : A) → P (f a))
    → All P (map f xs)
All-mapped P f [] h = tt
All-mapped P f (x ∷ xs) h = (h x, All-mapped P f xs h)

-- The chart of every trending page begins with 0, whatever the totals are: its first minute starts
-- at or before the beginning of the window, and the window takes only minutes that start after it.
pub trending-StartsEmpty :
    (collates : String → String → Bool) (totals : List Total) (asked : ℕ) (wiki : Option String)
    (limit now : ℕ)
    → All (λ p. StartsEmpty p.per_minute) (trending collates totals asked wiki limit now).pages
unfolding trending trending_page
trending-StartsEmpty collates totals asked wiki limit now =
    All-mapped (λ p. StartsEmpty p.per_minute) _ _
      (λ row. series_of-empty (page_minutes totals _ now row.0) (clamp_minutes asked) now (
        get-page_minutes totals (start_of_window now (clamp_minutes asked)) now
          (trunc now - clamp_minutes asked * minute_ms) row.0 (start_le now (clamp_minutes asked))))

module _ {A : Type 0} (before : A → A → Bool) where
  In-insert_in_order :
      (x : A) (xs : List A) (a : A) → In a (insert_in_order before x xs) → In a (x ∷ xs)
  unfolding insert_in_order
  In-insert_in_order x [] a m = m
  In-insert_in_order x (y ∷ ys) a m = elim (Bool-cases (before y x)) [
    | inl q ↦
        let m' : In a (y ∷ insert_in_order before x ys) = rw q at m in
        elim m' [
          | inl e ↦ inr (inl e)
          | inr rest ↦ elim (In-insert_in_order x ys a rest) [ inl e ↦ inl e | inr k ↦ inr (inr k) ]
        ]
    | inr q ↦ rw q at m
  ]

  In-order_by : (xs : List A) (a : A) → In a (order_by before xs) → In a xs
  unfolding order_by
  In-order_by [] a m = m
  In-order_by (x ∷ xs) a m = elim (In-insert_in_order x (order_by before xs) a m) [
    | inl e ↦ inl e
    | inr k ↦ inr (In-order_by xs a k)
  ]

In-take : {A : Type 0} (n : ℕ) (xs : List A) (a : A) → In a (take n xs) → In a xs
In-take zero xs a m = absurd m
In-take (suc n) [] a m = m
In-take (suc n) (x ∷ xs) a (inl e) = inl e
In-take (suc n) (x ∷ xs) a (inr m) = inr (In-take n xs a m)

-- Every row of the feed passes its filters.
selected :
    (edits : List Edit) (f : Filters) (limit : ℕ) (e : Edit)
    → In e (latest_rows edits f limit)
    → selects f e ≡ true
unfolding latest_rows
selected edits f limit e m =
    (In-filter (selects f) edits e
      (In-order_by _ (filter (selects f) edits) e (In-take limit _ e m))).1

last_time-append :
    (front : List Edit) (last : Edit) → last_time (front ++ last ∷ []) ≡ some last.event_time
unfolding last_time
last_time-append [] last = refl
last_time-append (x ∷ []) last = refl
last_time-append (x ∷ y ∷ front) last = last_time-append (y ∷ front) last

too_old :
    (f : Filters) (e : Edit) (t : ℕ) → f.before ≡ some t → e.event_time ≡ t → selects f e ≡ true → ⊥
unfolding selects
too_old f e t bound same h = ground arith

-- The next page, asked for with the time that a page hands out, shows no edit that happened at the
-- time of the last edit of that page. So an edit of this time for which the page had no room is on
-- neither.
pub paging_skips :
    (format : Format) (underscored : String → String) (edits : List Edit) (f : Filters)
    (limit next_limit : ℕ) (front : List Edit) (last e : Edit)
    → (latest_edits format underscored edits f limit).rows ≡ front ++ last ∷ []
    → e.event_time ≡ last.event_time
    → ¬ In e
        (latest_edits format underscored edits
          (record f { before = (latest_edits format underscored edits f limit).next_before })
          next_limit).rows
unfolding latest_edits
paging_skips format underscored edits f limit next_limit front last e page same m =
    let f' : Filters = record f {
      before = (latest_edits format underscored edits f limit).next_before;
    } in
    too_old f' e last.event_time (ap last_time page ∙ last_time-append front last) same
      (selected edits f' _ e m)
