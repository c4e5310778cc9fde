-- ===== src/Sinks/Cover.antt =====
-- sinks/postgres_sink.py: what a batch, its rows and the positions account for.
use mathlib.Core.Option.{some-injective}
use native.Mathlib.Decide.{dec_lt}
use wikistream_kafka.Prelude.{
  ℕ, ◌+◌, ◌≤◌, ◌<◌, ◌≡◌, refl, sym, ap, subst, ◌∙◌, ◌⊎◌, inl, inr, String, Option, none, some, List,
  [], ◌∷◌, ◌++◌, map, ◌==◌, All, All-In, In, In-append_left, In-append_right, string_eq, nat_eq,
  arith, Option-cases, Bool-cases,
}
use wikistream_kafka.Dict
use wikistream_kafka.Dict.{Dict, get-put, get-remove, All-put, Distinct, put-Distinct}
use wikistream_kafka.Sinks.Repeats.{put_rows, kept-put_rows, all-put_rows}
use wikistream_kafka.Sinks.Storage.{Message, on_assign, on_revoke, commit_all, decode_all, rows_of}

abbrev pub InTable : {V : Type 0} → Dict String V → String → Type 0
InTable {V} table k = (v : V) × (Dict.get table k ≡ some v)

abbrev newer : Option ℕ → Option ℕ → Option ℕ
newer none old = old
newer (some p) old = some p

-- A commit moves the offsets of the partitions that are read.
get-commit_all :
    (committed positions : Dict ℕ ℕ) (r : ℕ)
    → Dict.get (commit_all committed positions) r
      ≡ newer (Dict.get positions r) (Dict.get committed r)
unfolding commit_all Dict.get
get-commit_all committed [] r = refl
get-commit_all committed ((q, p) ∷ positions) r = elim (Bool-cases (q == r)) [
  | inl same ↦ rw (get-put, same) refl
  | inr other ↦ rw (get-put, other) (get-commit_all committed positions r)
]

In-map : {A B : Type 0} (f : A → B) (xs : List A) (a : A) → In a xs → In (f a) (map f xs)
In-map f [] a i = absurd i
In-map f (x ∷ xs) a (inl e) = inl (ap f e)
In-map f (x ∷ xs) a (inr i) = inr (In-map f xs a i)

-- `log q o` is the value at offset `o` of partition `q`, if there is one.
module _ {E V : Type 0} (decode : List ℕ → Option E) (key : E → String) (row : E → V)
    (log : ℕ → ℕ → Option (List ℕ)) where
  abbrev pub Waiting : List Message → List ℕ → Type 0
  Waiting batch value = (m : Message) × In m batch × (m.value ≡ value)

  -- Every event before the offset is in the table, or its message waits in the batch.
  abbrev pub Covers : Dict String V → List Message → ℕ → ℕ → Type 0
  Covers table batch q p =
      (o : ℕ) (value : List ℕ) (e : E)
      → o < p
      → log q o ≡ some value
      → decode value ≡ some e
      → InTable table (key e) ⊎ Waiting batch value

  abbrev pub AllCovered : Dict String V → List Message → Dict ℕ ℕ → Type 0
  AllCovered table batch offsets = (q p : ℕ) → Dict.get offsets q ≡ some p → Covers table batch q p

  -- A row that an event of the topic makes.
  abbrev pub Justified : String × V → Type 0
  Justified (k, v) =
      (q : ℕ) × (o : ℕ) × (value : List ℕ) × (e : E) × (log q o ≡ some value)
      × (decode value ≡ some e)
      × (k ≡ key e)
      × (v ≡ row e)

  abbrev pub FromTopic : List Message → Type 0
  FromTopic = All (λ m. log m.partition m.offset ≡ some m.value)

  -- The next message of its partition.
  abbrev pub NextIn : Dict ℕ ℕ → Message → Type 0
  NextIn positions m =
      (p : ℕ) × (Dict.get positions m.partition ≡ some p)
      × (p ≤ m.offset)
      × (log m.partition m.offset ≡ some m.value)
      × ((o : ℕ) → p ≤ o → o < m.offset → log m.partition o ≡ none)

  pub received-AllCovered :
      (table : Dict String V) (batch : List Message) (positions : Dict ℕ ℕ) (m : Message)
      → NextIn positions m
      → AllCovered table batch positions
      → AllCovered table (batch ++ m ∷ []) (Dict.put positions m.partition (m.offset + 1))
  received-AllCovered table batch positions m (p, at, le, there, gap) h q r g o value e lt l d =
      elim (Bool-cases (m.partition == q)) [
        | inl same ↦
            let own : m.partition ≡ q = (nat_eq.same_iff m.partition q).0 same in
            let next : r ≡ m.offset + 1 =
              ground (arith, get-put positions m.partition q (m.offset + 1)) in
            let l' : log m.partition o ≡ some value = rw own l in
            elim (dec_lt o p) [
              | yes before ↦ more (h m.partition p at o value e before l' d)
              | no after ↦ elim (dec_lt o m.offset) [
                | yes inside ↦
                    let empty : log m.partition o ≡ none = gap o (omega arith) inside in absurd (cc)
                | no last ↦
                    let here : o ≡ m.offset = omega arith in
                    let same_value : some m.value ≡ some value =
                      sym there ∙ ap (log m.partition) (sym here) ∙ l' in
                    inr (
                      m,
                      In-append_right m batch (m ∷ []) (inl refl),
                      some-injective m.value value same_value,
                    )
              ]
            ]
        | inr other ↦ more (
            h q r (ground (arith, get-put positions m.partition q (m.offset + 1))) o value e lt l d)
      ]
    where
      more :
          InTable table (key e) ⊎ Waiting batch value
          → InTable table (key e) ⊎ Waiting (batch ++ m ∷ []) value
      more (inl t) = inl t
      more (inr (w, i, same)) = inr (w, In-append_left w batch (m ∷ []) i, same)

  no_batch :
      (table : Dict String V) (batch : List Message) (q p : ℕ)
      → Covers table [] q p
      → Covers table batch q p
  no_batch table batch q p h o value e lt l d = elim (h o value e lt l d) [
    | inl t ↦ inl t
    | inr w ↦ absurd w.1
  ]

  from_committed :
      (table : Dict String V) (committed : Dict ℕ ℕ) (q : ℕ)
      → AllCovered table [] committed
      → Covers table [] q (Dict.get_or committed q 0)
  unfolding Dict.get_or
  from_committed table committed q c = elim (Option-cases (Dict.get committed q)) [
    | inl none_yet ↦ rw (none_yet, Dict.get_or) (λ o value e lt l d. absurd (omega arith))
    | inr (p, at) ↦ rw (at, Dict.get_or) (c q p at)
  ]

  assign-AllCovered :
      (table : Dict String V) (batch : List Message) (committed : Dict ℕ ℕ) (q : ℕ)
      (positions : Dict ℕ ℕ)
      → AllCovered table [] committed
      → AllCovered table batch positions
      → AllCovered table batch (Dict.put positions q (Dict.get_or committed q 0))
  assign-AllCovered table batch committed q positions c h r p g = elim (Bool-cases (q == r)) [
    | inl same ↦
        let start : Dict.get_or committed q 0 ≡ p =
          ground (arith, get-put positions q r (Dict.get_or committed q 0)) in
        subst (λ (x : ℕ). Covers table batch x p) ((nat_eq.same_iff q r).0 same)
          (rw (← start) (
            no_batch table batch q (Dict.get_or committed q 0)
              (from_committed table committed q c)))
    | inr other ↦ h r p (ground (arith, get-put positions q r (Dict.get_or committed q 0)))
  ]

  pub on_assign-AllCovered :
      (table : Dict String V) (batch : List Message) (committed : Dict ℕ ℕ) (qs : List ℕ)
      (positions : Dict ℕ ℕ)
      → AllCovered table [] committed
      → AllCovered table batch positions
      → AllCovered table batch (on_assign committed positions qs)
  unfolding on_assign
  on_assign-AllCovered table batch committed [] positions c h = h
  on_assign-AllCovered table batch committed (q ∷ qs) positions c h =
      on_assign-AllCovered table batch committed qs
        (Dict.put positions q (Dict.get_or committed q 0)) c
        (assign-AllCovered table batch committed q positions c h)

  pub on_revoke-AllCovered :
      (table : Dict String V) (batch : List Message) (qs : List ℕ) (positions : Dict ℕ ℕ)
      → AllCovered table batch positions
      → AllCovered table batch (on_revoke positions qs)
  unfolding on_revoke
  on_revoke-AllCovered table batch [] positions h = h
  on_revoke-AllCovered table batch (q ∷ qs) positions h =
      on_revoke-AllCovered table batch qs (Dict.remove positions q)
        (λ r p g. h r p (ground (arith, get-remove positions q r)))

  pub committed-AllCovered :
      (table : Dict String V) (committed positions : Dict ℕ ℕ)
      → AllCovered table [] committed
      → AllCovered table [] positions
      → AllCovered table [] (commit_all committed positions)
  committed-AllCovered table committed positions c h r x g =
      elim (Option-cases (Dict.get positions r)) [
        | inl none_here ↦ c r x (sym (get-commit_all committed positions r ∙ rw none_here refl) ∙ g)
        | inr (p, at) ↦ h r x (at ∙ sym (get-commit_all committed positions r ∙ rw at refl) ∙ g)
      ]

  -- More rows cover as much.
  pub grown-AllCovered :
      (table : Dict String V) (rows : List (String × V)) (batch : List Message) (offsets : Dict ℕ ℕ)
      → AllCovered table batch offsets
      → AllCovered (put_rows table rows) batch offsets
  grown-AllCovered table rows batch offsets h q p g o value e lt l d =
      elim (h q p g o value e lt l d) [
        | inl (v, t) ↦ inl (v, kept-put_rows rows table (key e) v t)
        | inr w ↦ inr w
      ]

  In-decode_all :
      (batch : List Message) (m : Message) (e : E)
      → In m batch
      → decode m.value ≡ some e
      → In e (decode_all decode batch)
  unfolding decode_all
  In-decode_all [] m e i d = absurd i
  In-decode_all (n ∷ batch) m e (inl same) d =
      let d' : decode n.value ≡ some e = rw same at d in rw (d', decode_all) (inl refl)
  In-decode_all (n ∷ batch) m e (inr i) d = elim (Option-cases (decode n.value)) [
    | inl none_read ↦ rw (none_read, decode_all) (In-decode_all batch m e i d)
    | inr (x, read) ↦ rw (read, decode_all) (inr (In-decode_all batch m e i d))
  ]

  -- Once its rows are written, a batch is in the table.
  pub written-AllCovered :
      (table : Dict String V) (batch : List Message) (offsets : Dict ℕ ℕ)
      → AllCovered table batch offsets
      → AllCovered (put_rows table (rows_of decode key row (decode_all decode batch))) [] offsets
  written-AllCovered table batch offsets h q p g o value e lt l d =
      elim (h q p g o value e lt l d) [
        | inl (v, t) ↦ inl (
          v,
          kept-put_rows (map (λ x. (key x, row x)) (decode_all decode batch)) table (key e) v t,
        )
        | inr (m, i, same) ↦
            let rows = map (λ x. (key x, row x)) (decode_all decode batch) in
            let there : In (key e, row e) rows =
              In-map (λ x. (key x, row x)) (decode_all decode batch) e
                (In-decode_all batch m e i (rw same d)) in
            inl (
              All-In (λ r. (v : V) × (Dict.get (put_rows table rows) r.0 ≡ some v)) rows
                (key e, row e) (all-put_rows rows table) there)
      ]
