-- ===== src/Web/Cache.antt =====
-- web/cache.py: answers kept for a few seconds.
--
-- The clock is in milliseconds; `later` is its reading when the computation has ended.
pub mod Fresh
use wikistream_kafka.Prelude.{
  ℕ, suc, ◌-◌, ◌≤◌, ◌<◌, Bool, true, false, Option, none, some, List, [], ◌∷◌, length, ltb, Keyed,
  ◌==◌, if◌then◌else◌,
}
use wikistream_kafka.Dict
use wikistream_kafka.Dict.{Dict}

abbrev pub max_entries : ℕ
max_entries = 256

-- The value kept, when it is recent enough.
abbrev pub kept : {V : Type 0} → ℕ → ℕ → Option (ℕ × V) → Option V
kept seconds now none = none
kept seconds now (some (t, v)) = if ltb (now - t) seconds then some v else none

module _ {K V : Type 0} ⦃equality : Keyed K⦄ where
  -- `min(entries, key=…)`: the first key of those with the least time
  unfoldable pub oldest : K → ℕ → Dict K (ℕ × V) → K
  oldest key least [] = key
  oldest key least ((k, (t, v)) ∷ rest) =
      oldest (if ltb t least then k else key) (if ltb t least then t else least) rest

  unfoldable pub trim : Dict K (ℕ × V) → Dict K (ℕ × V)
  trim [] = []
  trim ((k, (t, v)) ∷ rest) =
      let entries = (k, (t, v)) ∷ rest in
      if ltb max_entries (length entries) then Dict.remove entries (oldest k t rest) else entries

  -- `get`; `computed` is what `compute()` would return.
  unfoldable pub get : ℕ → Dict K (ℕ × V) → K → ℕ → ℕ → V → Dict K (ℕ × V) × V
  get seconds entries key now later computed = elim (kept seconds now (Dict.get entries key)) [
    | some v ↦ (entries, v)
    | none ↦ (trim (Dict.put entries key (later, computed)), computed)
  ]
