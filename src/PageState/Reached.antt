-- ===== src/PageState/Reached.antt =====
-- processors/page_state.py: what holds of wiki.page-latest after any sequence of handled messages,
-- rebalances, restarts and compactions.
--
-- Every message is one committed transaction here; an aborted one is the subject of Transactional.
use wikistream_kafka.Prelude.{
  ℕ, ◌≤◌, ◌≡◌, refl, sym, ◌∙◌, subst, ap, inl, inr, String, false, Option, none, some, List, [],
  ◌∷◌, ◌++◌, arith, nat_eq, string_eq, ◌==◌, if◌then◌else◌, Bool-cases, All, All-append, In,
  append-nil,
}
use mathlib.Core.Option.{some-injective}
use wikistream_kafka.Dict
use wikistream_kafka.Dict.{Dict, get-put, get-put_self, get-remove}
use wikistream_kafka.PageLatest.{Wire, IsSound}
use wikistream_kafka.PageState.{
  remember, is_stale, Produced, Message, PageState, page_state, assigned, revoked, handle,
}
use wikistream_kafka.PageState.Guard.{
  after, highest, whole, load_all, load_applied-whole, IsTimed, In-Reaches, get-remember,
  get-load_all, highest-append,
}
use wikistream_kafka.PageState.Compaction.{
  Compacts, InOrder, InOrder-Compacts, All-Compacts, highest-Compacts, InOrder-append,
}
use wikistream_kafka.PageState.Steps.{Step, unchanged, skipped, written, handle-Step}

-- The partitions of wiki.page-latest.
abbrev pub Topic : Type 0
Topic = ℕ → List Produced

abbrev pub set_partition : Topic → ℕ → List Produced → Topic
set_partition topic p records q = if p == q then records else topic q

-- Everything that can happen to one instance and the topic. Kafka hands a message only to the
-- instance that the partition is assigned to.
pub data Reach (w : Wire) : PageState → Topic → Type 0 where
  start : Reach w page_state (λ p. [])
  handled :
      {s s' : PageState} {topic : Topic} {out : List Produced}
      → Reach w s topic
      → (m : Message) (applied : Dict String ℕ) → Dict.get s.applied m.partition ≡ some applied
      → handle w s m ≡ some (s', out)
      → Reach w s' (set_partition topic m.partition (topic m.partition ++ out))
  -- the load reads the whole partition
  given :
      {s s' : PageState} {topic : Topic}
      → Reach w s topic
      → (p : ℕ) → assigned w s p (whole (topic p)) ≡ some s'
      → Reach w s' topic
  taken :
      {s : PageState} {topic : Topic}
      → Reach w s topic
      → (p : ℕ) → Reach w (revoked s (p ∷ [])) topic
  restarted : {s : PageState} {topic : Topic} → Reach w s topic → Reach w page_state topic
  compacted :
      {s : PageState} {topic : Topic} {records : List Produced}
      → Reach w s topic
      → (p : ℕ) → Compacts (topic p) records
      → Reach w s (set_partition topic p records)

-- What holds of one partition: its records are in order and say their times, and the guard, while
-- the partition is assigned, is what its records say.
pub record Holds (w : Wire) (applied : Dict ℕ (Dict String ℕ)) (p : ℕ) (records : List Produced)
    : Type 0 where
  pub order : InOrder records
  pub timed : All (IsTimed w) records
  pub guard :
      (d : Dict String ℕ)
      → Dict.get applied p ≡ some d
      → (key : String) → Dict.get d key ≡ highest key records none

module _ (w : Wire) (sound : IsSound w) where
  -- The highest time of a page after a record that the guard lets through.
  written-guard :
      (d : Dict String ℕ) (records : List Produced) (r : Produced)
      → ((key : String) → Dict.get d key ≡ highest key records none)
      → (key : String)
      → Dict.get (remember d r.key r.timestamp) key ≡ highest key (records ++ r ∷ []) none
  unfolding highest after
  written-guard d records r h key =
      rw (get-remember d r.key key r.timestamp, h key, highest-append key records (r ∷ []) none)
        refl

  written-order :
      (d : Dict String ℕ) (records : List Produced) (r : Produced)
      → ((key : String) → Dict.get d key ≡ highest key records none)
      → is_stale d r.key r.timestamp ≡ false
      → (q : Produced) → In q records
      → q.key ≡ r.key
      → q.timestamp ≤ r.timestamp
  unfolding is_stale
  written-order d records r h fresh q m e =
      let (u, top, le) = In-Reaches q records none m in
      let same : Dict.get d r.key ≡ some u =
        h r.key ∙ subst (λ (k : String). highest k records none ≡ some u) e top in
      ground (arith, same, le, fresh)

  -- A step on a partition keeps what holds of it.
  Step-Holds :
      {guards : Dict ℕ (Dict String ℕ)} {p : ℕ} {guards' : Dict ℕ (Dict String ℕ)}
      {out : List Produced}
      → Step w guards p guards' out
      → (records : List Produced) → Holds w guards p records
      → Holds w guards' p (records ++ out)
  Step-Holds unchanged records h = rw (append-nil records) h
  Step-Holds {guards} {p} (skipped d got) records h = rw (append-nil records) (record {
    order = h.order;
    timed = h.timed;
    guard = λ d' g. h.guard d' (ground (arith, get-put guards p p d, nat_eq.same_iff p p));
  })
  Step-Holds {guards} {p} (written d got r timed fresh) records h = record {
    order = InOrder-append records r h.order (written-order d records r (h.guard d got) fresh);
    timed = All-append (IsTimed w) records (r ∷ []) h.timed (timed, tt);
    guard = λ d' g.
        subst
          (λ (x : Dict String ℕ).
            (key : String) → Dict.get x key ≡ highest key (records ++ r ∷ []) none)
          (some-injective (remember d r.key r.timestamp) d'
            (sym (get-put_self guards p (remember d r.key r.timestamp)) ∙ g))
          (written-guard d records r (h.guard d got));
  }

  -- It leaves the guards of the other partitions alone.
  Step-other :
      {guards : Dict ℕ (Dict String ℕ)} {p : ℕ} {guards' : Dict ℕ (Dict String ℕ)}
      {out : List Produced}
      → Step w guards p guards' out
      → (q : ℕ) → (p == q) ≡ false
      → Dict.get guards' q ≡ Dict.get guards q
  Step-other unchanged q n = refl
  Step-other {guards} {p} (skipped d got) q n = rw (get-put guards p q d, n) refl
  Step-other {guards} {p} (written d got r timed fresh) q n =
      rw (get-put guards p q (remember d r.key r.timestamp), n) refl

  same_guard-Holds :
      (guards guards' : Dict ℕ (Dict String ℕ)) (q : ℕ) (records : List Produced)
      → Dict.get guards' q ≡ Dict.get guards q
      → Holds w guards q records
      → Holds w guards' q records
  same_guard-Holds guards guards' q records e h = record {
    order = h.order;
    timed = h.timed;
    guard = λ d g. h.guard d (sym e ∙ g);
  }

  -- A change of one partition, where the others keep their guards.
  at_partition :
      (guards guards' : Dict ℕ (Dict String ℕ)) (p : ℕ) (records : List Produced) (topic : Topic)
      → Holds w guards' p records
      → ((q : ℕ) → (p == q) ≡ false → Dict.get guards' q ≡ Dict.get guards q)
      → ((q : ℕ) → Holds w guards q (topic q))
      → (q : ℕ) → Holds w guards' q (set_partition topic p records q)
  at_partition guards guards' p records topic here others h q = elim (Bool-cases (p == q)) [
    | inl e ↦ rw e (subst (λ (x : ℕ). Holds w guards' x records) ((nat_eq.same_iff p q).0 e) here)
    | inr n ↦ rw n (same_guard-Holds guards guards' q (topic q) (others q n) (h q))
  ]

  none-some : (d : Dict String ℕ) → ◌≡◌ {A = Option (Dict String ℕ)} none (some d) → ⊥
  none-some d g = ground arith

  -- A partition that was just assigned has the guard of its records.
  rebuilt-Holds :
      (guards : Dict ℕ (Dict String ℕ)) (p : ℕ) (records : List Produced)
      → Holds w guards p records
      → Holds w (Dict.put guards p (load_all w records)) p records
  rebuilt-Holds guards p records h = record {
    order = h.order;
    timed = h.timed;
    guard = λ d g.
        subst (λ (x : Dict String ℕ). (key : String) → Dict.get x key ≡ highest key records none)
          (some-injective (load_all w records) d
            (sym (get-put_self guards p (load_all w records)) ∙ g))
          (λ key. get-load_all w records key h.timed);
  }

  assigned-applied :
      (s s' : PageState) (p : ℕ) (records : List Produced)
      → assigned w s p (whole records) ≡ some s'
      → s'.applied ≡ Dict.put s.applied p (load_all w records)
  unfolding assigned
  assigned-applied s s' p records h =
      let loaded : assigned w s p (whole records)
          ≡ some (record s { applied = Dict.put s.applied p (load_all w records) }) =
        rw (assigned, load_applied-whole w records) refl in
      ap (λ (x : PageState). x.applied)
        (sym (
          some-injective (record s { applied = Dict.put s.applied p (load_all w records) }) s'
            (sym loaded ∙ h)))

  -- A revoked partition has no guard, the others keep theirs.
  revoked-Holds :
      (s : PageState) (p q : ℕ) (records : List Produced)
      → Holds w s.applied q records
      → Holds w (revoked s (p ∷ [])).applied q records
  unfolding revoked
  revoked-Holds s p q records h = record {
    order = h.order;
    timed = h.timed;
    guard = λ d g. h.guard d (ground (arith, get-remove s.applied p q));
  }

  pub Reach-Holds :
      {s : PageState} {topic : Topic} → Reach w s topic → (p : ℕ) → Holds w s.applied p (topic p)
  unfolding Dict.get assigned
  Reach-Holds start p = record { order = tt; timed = tt; guard = λ d g. absurd (none-some d g) }
  Reach-Holds (handled {s} {s'} {topic} {out} r m d got run) p =
      let step = handle-Step w sound s m (s', out) d got run in
      let h = Reach-Holds r in
      at_partition s.applied s'.applied m.partition (topic m.partition ++ out) topic
        (Step-Holds step (topic m.partition) (h m.partition)) (Step-other step) h p
  Reach-Holds (given {s} {s'} {topic} r p' load) p =
      let guards = assigned-applied s s' p' (topic p') load in
      elim (Bool-cases (p' == p)) [
        | inl e ↦ rw guards (
            subst (λ (x : ℕ). Holds w (Dict.put s.applied p' (load_all w (topic p'))) x (topic x))
              ((nat_eq.same_iff p' p).0 e)
              (rebuilt-Holds s.applied p' (topic p') (Reach-Holds r p')))
        | inr n ↦ rw guards (
            same_guard-Holds s.applied (Dict.put s.applied p' (load_all w (topic p'))) p (topic p)
              (rw (get-put s.applied p' p (load_all w (topic p')), n) refl) (Reach-Holds r p))
      ]
  Reach-Holds (taken {s} {topic} r p') p = revoked-Holds s p' p (topic p) (Reach-Holds r p)
  Reach-Holds (restarted {topic} r) p =
      let h = Reach-Holds r p in
      record { order = h.order; timed = h.timed; guard = λ d g. absurd (none-some d g) }
  Reach-Holds (compacted {s} {topic} {records} r p' c) p =
      let h = Reach-Holds r in
      at_partition s.applied s.applied p' records topic
        (record {
          order = InOrder-Compacts c (h p').order;
          timed = All-Compacts (IsTimed w) c (h p').timed;
          guard = λ d g key. (h p').guard d g key ∙ sym (highest-Compacts c (h p').order key none);
        })
        (λ q n. refl) h p
