-- ===== src/Parsing/Valid.antt =====
-- common/models.py: what a CleanEvent made from a raw event satisfies.
use wikistream_kafka.Prelude.{
  ◌≡◌, refl, sym, ap, ◌∙◌, String, true, false, string_eq, ◌==◌, contains, arith,
}
use wikistream_kafka.Prelude.Int.{ℤ}
use wikistream_kafka.Models.{CleanEvent}
use wikistream_kafka.Parsing.{
  Value, integer, Fields, get, Library, Parsed, parsed, refused, raised, and_then, event_types,
  event_id_of,
}
use wikistream_kafka.Parsing.Clean.{type_of, wiki_of, namespace_of, build, clean_event}

-- the value that a successful chain went through
pub and_then-parsed {ℓ κ} :
    {A : Type ℓ} {B : Type κ} (p : Parsed A) (f : A → Parsed B) (b : B)
    → and_then p f ≡ parsed b
    → (a : A) × (p ≡ parsed a) × (f a ≡ parsed b)
unfolding and_then
and_then-parsed (parsed a) f b h = (a, refl, h)
and_then-parsed (refused r) f b h = absurd ground arith
and_then-parsed (raised x) f b h = absurd ground arith

-- What a CleanEvent carries from a raw event that was accepted.
pub record IsValid (raw : Fields) (e : CleanEvent) : Type 0 where
  pub same_id : event_id_of raw ≡ parsed e.event_id
  pub known_type : contains event_types e.type ≡ true
  pub has_wiki : (e.wiki == "") ≡ false
  pub same_namespace : get raw "namespace" ≡ integer e.namespace

type_of-known : (v : Value) (s : String) → type_of v ≡ parsed s → contains event_types s ≡ true
unfolding type_of
type_of-known v s h = ground arith

wiki_of-nonempty : (v : Value) (s : String) → wiki_of v ≡ parsed s → (s == "") ≡ false
unfolding wiki_of
wiki_of-nonempty v s h = ground arith

namespace_of-integer : (v : Value) (n : ℤ) → namespace_of v ≡ parsed n → v ≡ integer n
unfolding namespace_of
namespace_of-integer v n h = ground arith

build-arguments :
    (lib : Library) (raw : Fields) (event_id type wiki title : String) (namespace : ℤ)
    (e : CleanEvent)
    → build lib raw event_id type wiki title namespace ≡ parsed e
    → (e.event_id ≡ event_id) × (e.type ≡ type) × (e.wiki ≡ wiki) × (e.namespace ≡ namespace)
unfolding build
build-arguments lib raw event_id type wiki title namespace e h =
    let (at, q1, h1) = and_then-parsed _ _ e h in
    let (a, q2, h2) = and_then-parsed _ _ e h1 in
    let (b, q3, h3) = and_then-parsed _ _ e h2 in
    let (c, q4, h4) = and_then-parsed _ _ e h3 in
    let (d, q5, h5) = and_then-parsed _ _ e h4 in
    let f : CleanEvent → Parsed CleanEvent → CleanEvent =
      λ other p. elim p [ parsed x ↦ x | refused r ↦ other | raised x ↦ other ] in
    let same = ap (f e) h5 in
    (
      sym (ap (λ (x : CleanEvent). x.event_id) same),
      sym (ap (λ (x : CleanEvent). x.type) same),
      sym (ap (λ (x : CleanEvent). x.wiki) same),
      sym (ap (λ (x : CleanEvent). x.namespace) same),
    )

-- A CleanEvent that comes out of `clean_event` has the id of the raw event, one of the four known
-- types, a wiki that is not empty and the namespace of the raw event, which is an integer.
pub clean_event-IsValid :
    (lib : Library) (raw : Fields) (e : CleanEvent) → clean_event lib raw ≡ parsed e → IsValid raw e
unfolding clean_event
clean_event-IsValid lib raw e h =
    let (event_id, q1, h1) = and_then-parsed _ _ e h in
    let (type, q2, h2) = and_then-parsed _ _ e h1 in
    let (wiki, q3, h3) = and_then-parsed _ _ e h2 in
    let (title, q4, h4) = and_then-parsed _ _ e h3 in
    let (namespace, q5, h5) = and_then-parsed _ _ e h4 in
    let (i, t, w, n) = build-arguments lib raw event_id type wiki title namespace e h5 in
    record {
      same_id = q1 ∙ ap parsed (sym i);
      known_type = rw t (type_of-known (get raw "type") type q2);
      has_wiki = rw w (wiki_of-nonempty (get raw "wiki") wiki q3);
      same_namespace = namespace_of-integer (get raw "namespace") namespace q5 ∙ ap integer (sym n);
    }
