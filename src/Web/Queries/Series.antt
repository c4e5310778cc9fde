-- ===== src/Web/Queries/Series.antt =====
-- web/queries.py: the minutes of a series account for the edits of its window.
use wikistream_kafka.Prelude.{
  ℕ, zero, suc, ◌+◌, ◌-◌, ◌*◌, ◌/◌, ◌≤◌, ◌<◌, ◌≡◌, refl, sym, ap, subst, ◌∙◌, inl, inr, true, List,
  [], ◌∷◌, map, length, ltb, leb, ◌==◌, filter, if◌then◌else◌, All, nat_eq, arith, Bool-cases,
  and-eq-true, ltb→lt, leb→le,
}
use wikistream_kafka.Dict
use wikistream_kafka.Dict.{Dict, get-put}
use wikistream_kafka.Web.Queries.{
  clamp_minutes, minute_ms, trunc, series_from, minute_series, start_of_window, in_window, Edit,
  Alert, Format, window_edits, tally, per_minute, overview,
}

abbrev pub sum : List ℕ → ℕ
sum [] = 0
sum (n ∷ ns) = n + sum ns

-- How many of the numbers are `m`.
unfoldable pub occurrences : List ℕ → ℕ → ℕ
occurrences [] m = 0
occurrences (k ∷ ks) m = occurrences ks m + (if k == m then 1 else 0)

pub get_or-tally : (ks : List ℕ) (m : ℕ) → Dict.get_or (tally ks) m 0 ≡ occurrences ks m
unfolding tally occurrences Dict.get_or Dict.get
get_or-tally [] m = refl
get_or-tally (k ∷ ks) m = ground (
  arith,
  get-put (tally ks) k m (Dict.get_or (tally ks) k 0 + 1),
  get_or-tally ks m,
  get_or-tally ks k,
  nat_eq.same_iff k m,
)

-- The sum of a function over `n` minutes.
sum_from : (ℕ → ℕ) → ℕ → ℕ → ℕ
sum_from f minute zero = 0
sum_from f minute (suc n) = f minute + sum_from f (minute + minute_ms) n

sum-series_from :
    (ks : List ℕ) (minute n : ℕ)
    → sum (series_from (tally ks) minute n) ≡ sum_from (occurrences ks) minute n
unfolding series_from sum_from
sum-series_from ks minute zero = refl
sum-series_from ks minute (suc n) =
    omega (arith, get_or-tally ks minute, sum-series_from ks (minute + minute_ms) n)

sum_from-nothing : (minute n : ℕ) → sum_from (occurrences []) minute n ≡ 0
unfolding sum_from occurrences
sum_from-nothing minute zero = refl
sum_from-nothing minute (suc n) = omega (arith, sum_from-nothing (minute + minute_ms) n)

-- One more key counts in the minute that it is, if the minutes reach it.
hit : ℕ → ℕ → ℕ
hit k m = if k == m then 1 else 0

sum_from-more :
    (k : ℕ) (ks : List ℕ) (minute n : ℕ)
    → sum_from (occurrences (k ∷ ks)) minute n
      ≡ sum_from (occurrences ks) minute n + sum_from (hit k) minute n
unfolding sum_from occurrences hit
sum_from-more k ks minute zero = refl
sum_from-more k ks minute (suc n) = omega (arith, sum_from-more k ks (minute + minute_ms) n)

early : (k minute n : ℕ) → k < minute → sum_from (hit k) minute n ≡ 0
unfolding sum_from hit
early k minute zero h = refl
early k minute (suc n) h = ground (arith, early k (minute + minute_ms) n)

hit_once :
    (n k minute j : ℕ)
    → k ≡ minute + j * minute_ms
    → j ≤ n
    → sum_from (hit k) minute n + hit k (minute + n * minute_ms) ≡ 1
unfolding sum_from hit
hit_once zero k minute zero e h = ground arith
hit_once zero k minute (suc j) e h = absurd (omega arith)
hit_once (suc n) k minute zero e h = ground (arith, early k (minute + minute_ms) n (omega arith))
hit_once (suc n) k minute (suc j) e h =
    let further : minute + suc n * minute_ms ≡ minute + minute_ms + n * minute_ms = omega arith in
    let apart : hit k minute ≡ 0 = ground arith in
    rw further
      (omega (arith, apart, hit_once n k (minute + minute_ms) j (omega arith) (omega arith)))

-- The minutes of a series and the one that is still filling.
abbrev OnGrid : ℕ → ℕ → ℕ → Type 0
OnGrid minute n k = (j : ℕ) × (k ≡ minute + j * minute_ms) × (j ≤ n)

sum_from-all :
    (ks : List ℕ) (minute n : ℕ)
    → All (OnGrid minute n) ks
    → sum_from (occurrences ks) minute n + occurrences ks (minute + n * minute_ms) ≡ length ks
unfolding occurrences hit
sum_from-all [] minute n h = omega (arith, sum_from-nothing minute n)
sum_from-all (k ∷ ks) minute n ((j, e, le), h) =
    omega
      (arith, sum_from-more k ks minute n, sum_from-all ks minute n h, hit_once n k minute j e le)

-- An edit of the window lies in a minute of the series or in the last one.
trunc-OnGrid :
    (t now minutes : ℕ)
    → minutes * minute_ms ≤ now
    → in_window (start_of_window now minutes) now t ≡ true
    → OnGrid (trunc now - minutes * minute_ms) minutes (trunc t)
unfolding trunc start_of_window
trunc-OnGrid t now minutes le h =
    let (after, until) = and-eq-true (ltb (now - minutes * minute_ms) t) (leb t now) h in
    let low : now - minutes * minute_ms < t = ltb→lt _ t after in
    let high : t ≤ now = leb→le t now until in
    (t / minute_ms + minutes - now / minute_ms, omega arith, omega arith)

length-map : {A B : Type 0} (f : A → B) (xs : List A) → length (map f xs) ≡ length xs
length-map f [] = refl
length-map f (x ∷ xs) = ap suc (length-map f xs)

window-OnGrid :
    (edits : List Edit) (now minutes : ℕ)
    → minutes * minute_ms ≤ now
    → All
        (OnGrid (trunc now - minutes * minute_ms) minutes)
        (map (λ e. trunc e.event_time) (window_edits edits (start_of_window now minutes) now))
unfolding window_edits filter
window-OnGrid [] now minutes le = tt
window-OnGrid (e ∷ edits) now minutes le =
    elim (Bool-cases (in_window (start_of_window now minutes) now e.event_time)) [
      | inl q ↦
          rw q (trunc-OnGrid e.event_time now minutes le q, window-OnGrid edits now minutes le)
      | inr q ↦ rw q (window-OnGrid edits now minutes le)
    ]

-- The number of edits that the overview shows is the sum of the minutes in its chart and the edits of
-- the minute that is still filling, which the chart leaves out; so no edit of the window is counted
-- twice in the chart or missing from it for another reason. The window is taken not to reach back
-- before the epoch.
pub overview_accounts :
    (format : Format) (edits : List Edit) (alerts : List Alert) (asked now : ℕ)
    → clamp_minutes asked * minute_ms ≤ now
    → let r = overview format edits alerts asked now in
      r.edits
      ≡ sum r.per_minute
        + occurrences
            (map
              (λ e. trunc e.event_time)
              (window_edits edits (start_of_window now (clamp_minutes asked)) now))
            (trunc now)
unfolding overview minute_series per_minute
overview_accounts format edits alerts asked now le =
    let minutes = clamp_minutes asked in
    let window = window_edits edits (start_of_window now minutes) now in
    let ks = map (λ (e : Edit). trunc e.event_time) window in
    let start = trunc now - minutes * minute_ms in
    let end : start + minutes * minute_ms ≡ trunc now = unfold trunc in omega (arith, le) in
    let total : sum_from (occurrences ks) start minutes + occurrences ks (trunc now) ≡ length ks =
      subst (λ (x : ℕ). sum_from (occurrences ks) start minutes + occurrences ks x ≡ length ks) end
        (sum_from-all ks start minutes (window-OnGrid edits now minutes le)) in
    sym (length-map (λ (e : Edit). trunc e.event_time) window)
    ∙ sym total
    ∙ ap (λ n. n + occurrences ks (trunc now)) (sym (sum-series_from ks start minutes))
