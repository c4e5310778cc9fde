-- ===== src/Web/Cache/Fresh.antt =====
-- web/cache.py: an answer is no older than the cache allows, and the cache stays small.
use wikistream_kafka.Prelude.{
  ℕ, suc, ◌-◌, ◌≤◌, ◌<◌, ◌≡◌, refl, subst, ◌∙◌, ◌⊎◌, inl, inr, Option, none, some, List, [], ◌∷◌,
  length, ltb, ltb→lt, Keyed, In→contains, if◌then◌else◌, All, All-map, In, arith, Bool-cases,
  Option-cases,
}
use wikistream_kafka.Dict
use wikistream_kafka.Dict.{
  Dict, keys, All-put, All-get, All-remove, contains-keys, length-put-le, length-remove-lt,
}
use wikistream_kafka.Web.Cache.{oldest, trim, kept, get, max_entries}

module _ {K V : Type 0} ⦃equality : Keyed K⦄ where
  abbrev pub computed_after : List (K × ℕ × V) → K → ℕ → V → Option V → List (K × ℕ × V)
  computed_after history key later computed none = (key, later, computed) ∷ history
  computed_after history key later computed (some v) = history

  -- Any sequence of calls, from the empty cache.
  pub data Calls (seconds : ℕ) : Dict K (ℕ × V) → List (K × ℕ × V) → Type 0 where
    start : Calls seconds [] []
    call :
        {entries : Dict K (ℕ × V)} {history : List (K × ℕ × V)}
        → Calls seconds entries history
        → (key : K) (now later : ℕ) (computed : V)
        → Calls seconds
            (get seconds entries key now later computed).0
            (computed_after history key later computed (kept seconds now (Dict.get entries key)))

  oldest-In :
      (entries : Dict K (ℕ × V)) (key : K) (least : ℕ)
      → In (oldest key least entries) (key ∷ keys entries)
  unfolding oldest
  oldest-In [] key least = inl refl
  oldest-In ((k, (t, v)) ∷ rest) key least =
      elim (oldest-In rest (if ltb t least then k else key) (if ltb t least then t else least)) [
        | inl e ↦ elim (Bool-cases (ltb t least)) [
          | inl q ↦ inr (inl (e ∙ rw q refl))
          | inr q ↦ inl (e ∙ rw q refl)
        ]
        | inr m ↦ inr (inr m)
      ]

  length-trim :
      (entries : Dict K (ℕ × V))
      → length entries ≤ suc max_entries
      → length (trim entries) ≤ max_entries
  unfolding trim
  length-trim [] h = omega arith
  length-trim ((k, (t, v)) ∷ rest) h =
      let entries : Dict K (ℕ × V) = (k, (t, v)) ∷ rest in
      elim (Bool-cases (ltb max_entries (length entries))) [
        | inl full ↦
            let there = In→contains (keys entries) (oldest k t rest) (oldest-In rest k t) in
            elim (Option-cases (Dict.get entries (oldest k t rest))) [
              | inl gone ↦ absurd (ground (arith, contains-keys entries (oldest k t rest)))
              | inr (w, found) ↦
                  rw full (omega (arith, length-remove-lt entries (oldest k t rest) w found))
            ]
        | inr room ↦ rw room (ground arith)
      ]

  All-trim :
      (P : K × (ℕ × V) → Type 0) (entries : Dict K (ℕ × V)) → All P entries → All P (trim entries)
  unfolding trim
  All-trim P [] h = h
  All-trim P ((k, (t, v)) ∷ rest) h =
      let entries : Dict K (ℕ × V) = (k, (t, v)) ∷ rest in
      elim (Bool-cases (ltb max_entries (length entries))) [
        | inl full ↦ rw full (All-remove P entries (oldest k t rest) h)
        | inr room ↦ rw room h
      ]

  -- Each entry was computed, and there is room.
  abbrev Kept : Dict K (ℕ × V) → List (K × ℕ × V) → Type 0
  Kept entries history =
      All (λ e. In (e.0, e.1.0, e.1.1) history) entries × (length entries ≤ max_entries)

  Calls-Kept :
      (seconds : ℕ) {entries : Dict K (ℕ × V)} {history : List (K × ℕ × V)}
      → Calls seconds entries history
      → Kept entries history
  unfolding get
  Calls-Kept seconds start = (tt, omega arith)
  Calls-Kept seconds (call {entries} {history} r key now later computed) =
      let (all, few) = Calls-Kept seconds r in
      elim (Option-cases (kept seconds now (Dict.get entries key))) [
        | inl miss ↦
            rw (miss, get)
              (
                All-trim _ (Dict.put entries key (later, computed)) (
                    All-put _ entries key (later, computed) (All-map _ _ entries (λ e m. inr m) all)
                      (inl refl)),
                length-trim (Dict.put entries key (later, computed))
                    (omega (arith, length-put-le entries key (later, computed))),
              )
        | inr (v, hit) ↦ rw (hit, get) (all, few)
      ]

  -- Whatever the calls were, an answer is what was just computed, or a value that some call computed
  -- for the same key less than the allowed time before this one; and there are never more than 256
  -- entries.
  pub answers_fresh :
      (seconds : ℕ) {entries : Dict K (ℕ × V)} {history : List (K × ℕ × V)}
      → Calls seconds entries history
      → (key : K) (now later : ℕ) (computed : V)
      → let (after, answer) = get seconds entries key now later computed in
        ((answer ≡ computed) ⊎ ((t : ℕ) × In (key, t, answer) history × (now - t < seconds)))
        × (length after ≤ max_entries)
  unfolding get
  answers_fresh seconds {entries} {history} r key now later computed = (
    elim (Option-cases (kept seconds now (Dict.get entries key))) [
      | inl miss ↦ rw (miss, get) (inl refl)
      | inr (v, hit) ↦ rw (hit, get) (inr (recent v hit))
    ],
    (Calls-Kept seconds (call r key now later computed)).1,
  )
    where
      recent :
          (v : V)
          → kept seconds now (Dict.get entries key) ≡ some v
          → (t : ℕ) × In (key, t, v) history × (now - t < seconds)
      recent v hit = elim (Option-cases (Dict.get entries key)) [
        | inl none_there ↦ absurd (ground arith)
        | inr ((t, w), there) ↦
            let found =
              All-get (λ e. In (e.0, e.1.0, e.1.1) history) entries key (t, w)
                (Calls-Kept seconds r).0 there in
            elim (Bool-cases (ltb (now - t) seconds)) [
              | inl q ↦
                  let same : w ≡ v = ground arith in
                  (t, subst (λ x. In (key, t, x) history) same found, ltb→lt (now - t) seconds q)
              | inr q ↦ absurd (ground arith)
            ]
      ]
