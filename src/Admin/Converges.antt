-- ===== src/Admin/Converges.antt =====
-- admin/create_topics.py: the cluster's topics follow the specs.
use wikistream_kafka.Prelude.{
  ◌≡◌, refl, ap, ◌∙◌, inl, inr, String, Bool, true, false, not, ◌||◌, Option, none, some, List, [],
  ◌∷◌, ◌==◌, same_refl, contains, if◌then◌else◌, All, All-map, All-both, string_eq, arith,
  Bool-cases, Option-cases,
}
use wikistream_kafka.Dict
use wikistream_kafka.Dict.{Dict, get-put, contains-keys, keys}
use wikistream_kafka.Config.{TopicSpec, update}
use wikistream_kafka.Admin.{
  Topic, Cluster, topic_config, for_each, new_topic, create_one, create_missing, set_config,
  sync_one, sync_configs, create_topics,
}

-- No two specs have one name.
abbrev pub Apart : List TopicSpec → Type 0
Apart [] = Unit
Apart (spec ∷ specs) = All (λ other. (spec.name == other.name) ≡ false) specs × Apart specs

-- A step that changes one topic, by what it was.
abbrev IsLocal :
    (TopicSpec → Cluster → Cluster) → (TopicSpec → Option Topic → Option Topic) → Type 0
IsLocal step effect =
    (spec : TopicSpec) (cluster : Cluster) (name : String)
    → Dict.get (step spec cluster) name
      ≡ (if spec.name == name then effect spec (Dict.get cluster name) else Dict.get cluster name)

module _ (step : TopicSpec → Cluster → Cluster) (effect : TopicSpec → Option Topic → Option Topic)
    (steps : IsLocal step effect) where
  for_each-others :
      (specs : List TopicSpec) (cluster : Cluster) (name : String)
      → All (λ other. (other.name == name) ≡ false) specs
      → Dict.get (for_each step specs cluster) name ≡ Dict.get cluster name
  unfolding for_each
  for_each-others [] cluster name h = refl
  for_each-others (spec ∷ specs) cluster name (apart, h) =
      for_each-others specs (step spec cluster) name h ∙ steps spec cluster name ∙ rw apart refl

  for_each-each :
      (specs : List TopicSpec) (cluster : Cluster)
      → Apart specs
      → All
          (λ spec.
            Dict.get (for_each step specs cluster) spec.name
            ≡ effect spec (Dict.get cluster spec.name))
          specs
  unfolding for_each
  for_each-each [] cluster h = tt
  for_each-each (spec ∷ specs) cluster (apart, h) = (
    for_each-others specs (step spec cluster) spec.name (
          All-map _ _ specs
            (λ o a.
              ground
                (arith, string_eq.same_iff spec.name o.name, string_eq.same_iff o.name spec.name))
            apart)
        ∙ steps spec cluster spec.name
        ∙ rw (same_refl spec.name) refl,
    All-map
        (λ s.
          (Dict.get (for_each step specs (step spec cluster)) s.name
            ≡ effect s (Dict.get (step spec cluster) s.name))
          × ((spec.name == s.name) ≡ false))
        _ specs (λ s (e, a). e ∙ ap (effect s) (steps spec cluster s.name ∙ rw a refl))
        (All-both _ _ specs (for_each-each specs (step spec cluster) h) apart),
  )

create_effect : String → (String → Bool) → List String → TopicSpec → Option Topic → Option Topic
create_effect min_insync accepts existing spec before =
    if contains existing spec.name || not (accepts spec.name)
    then before
    else some (new_topic min_insync spec)

create_one-IsLocal :
    (min_insync : String) (accepts : String → Bool) (existing : List String)
    → IsLocal (create_one min_insync accepts existing) (create_effect min_insync accepts existing)
unfolding create_one create_effect
create_one-IsLocal min_insync accepts existing spec cluster name =
    ground (arith, get-put cluster spec.name name (new_topic min_insync spec))

-- the topic with the settings of the spec set
unfoldable pub synced : String → TopicSpec → Topic → Topic
synced min_insync spec t = record t { config = update t.config (topic_config min_insync spec) }

abbrev map_topic : (Topic → Topic) → Option Topic → Option Topic
map_topic f none = none
map_topic f (some t) = some (f t)

sync_effect : String → List String → TopicSpec → Option Topic → Option Topic
sync_effect min_insync existing spec before =
    if contains existing spec.name then map_topic (synced min_insync spec) before else before

get-set_config :
    (cluster : Cluster) (own name : String) (config : Dict String String)
    → Dict.get (set_config cluster own config) name ≡ (
        if own == name
        then map_topic (λ t. record t { config = update t.config config }) (Dict.get cluster name)
        else Dict.get cluster name)
unfolding set_config
get-set_config cluster own name config = elim (Bool-cases (own == name)) [
  | inl same ↦ elim (Option-cases (Dict.get cluster name)) [
    | inl gone ↦
        let gone' : Dict.get cluster own ≡ none = ap (Dict.get cluster) (named same) ∙ gone in
        rw (gone', set_config, same, gone) refl
    | inr (t, there) ↦
        let there' : Dict.get cluster own ≡ some t = ap (Dict.get cluster) (named same) ∙ there in
        rw (there', set_config, get-put, same, there) refl
  ]
  | inr other ↦ elim (Option-cases (Dict.get cluster own)) [
    | inl gone ↦ rw (gone, set_config, other) refl
    | inr (t, there) ↦ rw (there, set_config, get-put, other) refl
  ]
]
  where
    named : (own == name) ≡ true → own ≡ name
    named q = (string_eq.same_iff own name).0 q

sync_one-IsLocal :
    (min_insync : String) (existing : List String)
    → IsLocal (sync_one min_insync existing) (sync_effect min_insync existing)
unfolding sync_one sync_effect synced
sync_one-IsLocal min_insync existing spec cluster name =
    elim (Bool-cases (contains existing spec.name)) [
      | inl q ↦ rw q (get-set_config cluster spec.name name (topic_config min_insync spec))
      | inr q ↦
          rw q (elim (Bool-cases (spec.name == name)) [ inl r ↦ rw r refl | inr r ↦ rw r refl ])
    ]

-- What the run makes of a topic: one that is there keeps its partitions and its other settings, and
-- has those of the spec set; one that is not there is made as the spec says, if the broker accepts.
abbrev pub expected : String → (String → Bool) → TopicSpec → Option Topic → Option Topic
expected min_insync accepts spec none =
    if accepts spec.name then some (new_topic min_insync spec) else none
expected min_insync accepts spec (some t) = some (synced min_insync spec t)

-- The two loops, one after the other, on a topic that is there before exactly when it is listed.
together :
    (min_insync : String) (accepts : String → Bool) (existing : List String) (s : TopicSpec)
    (before : Option Topic)
    → contains existing s.name ≡ elim before [ none ↦ false | some t ↦ true ]
    → sync_effect min_insync existing s (create_effect min_insync accepts existing s before)
      ≡ expected min_insync accepts s before
unfolding sync_effect create_effect
together min_insync accepts existing s none h =
    rw h (elim (Bool-cases (accepts s.name)) [ inl q ↦ rw q refl | inr q ↦ rw q refl ])
together min_insync accepts existing s (some t) h = rw h refl

-- After a run every spec's topic is as the spec says: created with its partitions and settings unless
-- the broker refused it, or, if it was there before, with the settings of the spec set, its other
-- settings and its number of partitions unchanged. The names of the specs are taken to differ.
pub create_topics-expected :
    (min_insync : String) (accepts : String → Bool) (specs : List TopicSpec) (cluster : Cluster)
    → Apart specs
    → All
        (λ spec.
          Dict.get (create_topics min_insync accepts specs cluster) spec.name
          ≡ expected min_insync accepts spec (Dict.get cluster spec.name))
        specs
unfolding create_topics create_missing sync_configs
create_topics-expected min_insync accepts specs cluster apart =
    let existing = keys cluster in
    let made = for_each (create_one min_insync accepts existing) specs cluster in
    All-map
      (λ s.
        (Dict.get (for_each (sync_one min_insync existing) specs made) s.name
          ≡ sync_effect min_insync existing s (Dict.get made s.name))
        × (Dict.get made s.name
            ≡ create_effect min_insync accepts existing s (Dict.get cluster s.name)))
      _ specs
      (λ s (e, c).
        e
        ∙ ap (sync_effect min_insync existing s) c
        ∙ together min_insync accepts existing s (Dict.get cluster s.name)
            (contains-keys cluster s.name))
      (All-both _ _ specs
        (for_each-each _ (sync_effect min_insync existing) (sync_one-IsLocal min_insync existing)
          specs made apart)
        (for_each-each _ (create_effect min_insync accepts existing)
          (create_one-IsLocal min_insync accepts existing) specs cluster apart))
