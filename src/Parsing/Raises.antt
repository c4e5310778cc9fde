-- ===== src/Parsing/Raises.antt =====
-- common/models.py: `clean_event` raises nothing but a ParseError on an event of the stream's shape.
use wikistream_kafka.Prelude.{
  ℕ, ◌≡◌, refl, inl, inr, String, Bool, true, false, List, string_eq, Option-cases, arith,
}
use wikistream_kafka.Prelude.Int.{ℤ}
use wikistream_kafka.Parsing.{
  Value, null, boolean, integer, float, text, array, object, Fields, get, lookup, Library, Parsed,
  parsed, refused, raised, and_then, event_id_of, id_at, id_from, optional_int,
}
use wikistream_kafka.Parsing.Clean.{
  object_of, parse_raw, type_of, wiki_of, title_of, namespace_of, attribute, event_time, or_empty,
  int_at, build, clean_event,
}

-- An exception other than ParseError.
abbrev pub raises {ℓ} : {A : Type ℓ} → Parsed A → Bool
raises (parsed a) = false
raises (refused r) = false
raises (raised x) = true

raises-and_then {ℓ κ} :
    {A : Type ℓ} {B : Type κ} (p : Parsed A) (f : A → Parsed B)
    → raises p ≡ false
    → ((a : A) → raises (f a) ≡ false)
    → raises (and_then p f) ≡ false
unfolding and_then
raises-and_then (parsed a) f h k = k a
raises-and_then (refused r) f h k = refl
raises-and_then (raised x) f h k = h

abbrev pub hashable : Value → Bool
hashable null = true
hashable (boolean b) = true
hashable (integer n) = true
hashable (float s) = true
hashable (text s) = true
hashable (array vs) = false
hashable (object fs) = false

abbrev pub is_object : Value → Bool
is_object null = false
is_object (boolean b) = false
is_object (integer n) = false
is_object (float s) = false
is_object (text s) = false
is_object (array vs) = false
is_object (object fs) = true

-- The shape that the stream's schema gives an event: the type has a hash, the revision and the
-- length are objects where they are given, and the event time is in the range of `datetime`.
pub record IsShaped (lib : Library) (raw : Fields) : Type 0 where
  pub type_hashable : hashable (get raw "type") ≡ true
  pub revision_object : is_object (or_empty lib (get raw "revision")) ≡ true
  pub length_object : is_object (or_empty lib (get raw "length")) ≡ true
  pub time_in_range : raises (event_time lib raw) ≡ false

raises-id_from : (v : Value) → raises (id_from v) ≡ false
unfolding id_from
raises-id_from v = ground arith

raises-id_at : (v : Value) → raises (id_at v) ≡ false
unfolding id_at
raises-id_at null = refl
raises-id_at (boolean b) = refl
raises-id_at (integer n) = refl
raises-id_at (float s) = refl
raises-id_at (text s) = refl
raises-id_at (array vs) = refl
raises-id_at (object meta) = elim (Option-cases (lookup meta "id")) [
  | inl q ↦ rw (raises, q) refl
  | inr (v, q) ↦ rw (raises, q) (raises-id_from v)
]

raises-object_of : (v : Value) → raises (object_of v) ≡ false
unfolding object_of
raises-object_of v = ground arith

pub raises-parse_raw : (lib : Library) (payload : List ℕ) → raises (parse_raw lib payload) ≡ false
unfolding parse_raw
raises-parse_raw lib payload = elim (Option-cases (lib.decode payload)) [
  | inl q ↦ rw (raises, parse_raw, q) refl
  | inr (t, q) ↦ elim (Option-cases (lib.loads t)) [
    | inl u ↦ rw (raises, parse_raw, q, u) refl
    | inr (v, u) ↦ rw (raises, parse_raw, q, u) (raises-object_of v)
  ]
]

raises-type_of : (v : Value) → hashable v ≡ true → raises (type_of v) ≡ false
unfolding type_of
raises-type_of v h = ground arith

raises-wiki_of : (v : Value) → raises (wiki_of v) ≡ false
unfolding wiki_of
raises-wiki_of v = ground arith

raises-title_of : (lib : Library) (v : Value) → raises (title_of lib v) ≡ false
unfolding title_of
raises-title_of lib v = ground arith

raises-namespace_of : (v : Value) → raises (namespace_of v) ≡ false
unfolding namespace_of
raises-namespace_of v = ground arith

raises-optional_int : (v : Value) → raises (optional_int v) ≡ false
unfolding optional_int
raises-optional_int v = ground arith

raises-attribute :
    (v : Value) (name : String) → is_object v ≡ true → raises (attribute v name) ≡ false
unfolding attribute
raises-attribute v name h = ground arith

-- The id of a payload, or a ParseError.
pub raises-id_of :
    (lib : Library) (payload : List ℕ)
    → raises (and_then (parse_raw lib payload) event_id_of) ≡ false
unfolding event_id_of
raises-id_of lib payload =
    raises-and_then (parse_raw lib payload) event_id_of (raises-parse_raw lib payload)
      (λ raw. raises-id_at (get raw "meta"))

raises-int_at : (v : Value) (name : String) → is_object v ≡ true → raises (int_at v name) ≡ false
raises-int_at v name h =
    raises-and_then (attribute v name) optional_int (raises-attribute v name h) raises-optional_int

raises-build :
    (lib : Library) (raw : Fields) (event_id type wiki title : String) (namespace : ℤ)
    → IsShaped lib raw
    → raises (build lib raw event_id type wiki title namespace) ≡ false
unfolding build
raises-build lib raw event_id type wiki title namespace h =
    let revision = or_empty lib (get raw "revision") in
    let length = or_empty lib (get raw "length") in
    raises-and_then _ _ h.time_in_range (λ at.
      raises-and_then _ _ (raises-int_at revision "old" h.revision_object) (λ a.
        raises-and_then _ _ (raises-int_at revision "new" h.revision_object) (λ b.
          raises-and_then _ _ (raises-int_at length "old" h.length_object)
            (λ c. raises-and_then _ _ (raises-int_at length "new" h.length_object) (λ d. refl)))))

-- An event of the stream's shape becomes a CleanEvent or is refused with a ParseError; no other
-- exception comes out of `clean_event`.
pub clean_event-raises :
    (lib : Library) (raw : Fields) → IsShaped lib raw → raises (clean_event lib raw) ≡ false
unfolding clean_event event_id_of
clean_event-raises lib raw h = raises-and_then _ _ (raises-id_at (get raw "meta")) (λ event_id.
    raises-and_then _ _ (raises-type_of (get raw "type") h.type_hashable) (λ type.
      raises-and_then _ _ (raises-wiki_of (get raw "wiki")) (λ wiki.
        raises-and_then _ _ (raises-title_of lib (get raw "title")) (λ title.
          raises-and_then _ _ (raises-namespace_of (get raw "namespace"))
            (λ namespace. raises-build lib raw event_id type wiki title namespace h)))))
