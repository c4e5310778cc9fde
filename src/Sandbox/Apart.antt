-- ===== src/Sandbox/Apart.antt =====
-- common/sandbox.py: what a test run deletes, it does not delete from another namespace.
use Prim.Native.Char.{Char, code}
use text.Mathlib.TextLemmas.{nil-append, cons-append}
use wikistream_kafka.Prelude.{
  ℕ, ◌≡◌, ◌≢◌, refl, sym, ◌∙◌, inl, inr, String, Bool, true, false, not, ◌&&◌, List, [], ◌∷◌,
  contains, contains-filter, ◌==◌, if◌then◌else◌, string_eq, nat_eq, append_text, arith, Bool-cases,
}
use wikistream_kafka.Config.{topic_name, scoped, default_namespace}
use wikistream_kafka.Sandbox.{KafkaState, starts_with, delete_names, delete_kafka_state}

unfoldable pub no_dot : String → Bool
no_dot (String.[]) = true
no_dot (String.◌∷◌ c s) = let rest = no_dot s in if code c == 46 then false else rest

-- a name without a dot is in no namespace
dotted :
    (s : String) (c : Char) (prefix : String)
    → no_dot (String.◌∷◌ c prefix) ≡ true
    → (rest : String) → starts_with (append_text "." s) (String.◌∷◌ c rest) ≡ false
unfolding no_dot starts_with
dotted s c prefix h rest = rw cons-append (ground arith)

undotted : (ns name : String) → no_dot name ≡ true → starts_with name (append_text ns ".") ≡ false
unfolding no_dot starts_with
undotted (String.[]) (String.[]) h = refl
undotted (String.[]) (String.◌∷◌ d name) h = ground arith
undotted (String.◌∷◌ c ns) (String.[]) h = rw cons-append refl
undotted (String.◌∷◌ c ns) (String.◌∷◌ d name) h = rw cons-append (ground (arith, undotted ns name))

unfoldable pub codes : String → List ℕ
codes (String.[]) = []
codes (String.◌∷◌ c s) = code c ∷ codes s

-- A name of one namespace is in no other one.
other :
    (ns own name : String)
    → no_dot ns ≡ true
    → no_dot own ≡ true
    → codes ns ≢ codes own
    → starts_with (append_text own (append_text "." name)) (append_text ns ".") ≡ false
unfolding no_dot starts_with codes
other (String.[]) (String.[]) name h k apart = absurd (apart refl)
other (String.[]) (String.◌∷◌ d own) name h k apart =
    rw (cons-append d own (append_text "." name)) (ground arith)
other (String.◌∷◌ c ns) (String.[]) name h k apart =
    rw (cons-append c ns ".", nil-append (append_text "." name))
      (dotted name c ns h (append_text ns "."))
other (String.◌∷◌ c ns) (String.◌∷◌ d own) name h k apart =
    rw (cons-append c ns ".", cons-append d own (append_text "." name))
      (elim (Bool-cases (code d == code c)) [
        | inl q ↦
            let same : code d ≡ code c = (nat_eq.same_iff (code d) (code c)).0 q in
            let further : codes ns ≢ codes own = λ e. apart (λ i. sym same i ∷ e i) in
            rw q (other ns own name (ground arith) (ground arith) further)
        | inr q ↦ rw q refl
      ])

-- When a test run deletes the topics and groups of its namespace, every topic that another namespace
-- names and every one of its groups, also those of the default namespace, which carry no prefix, are
-- there exactly when they were before, whatever the broker does with each deletion. The namespaces
-- are taken to differ and, as the name is, to have no dot.
pub namespaces_apart :
    (deletes : String → Bool) (ns own name : String) (k : KafkaState)
    → no_dot ns ≡ true
    → no_dot own ≡ true
    → no_dot name ≡ true
    → codes ns ≢ codes own
    → let after = delete_kafka_state deletes ns k in
      (contains after.topics (topic_name own name) ≡ contains k.topics (topic_name own name))
      × (contains after.groups (scoped own name) ≡ contains k.groups (scoped own name))
unfolding topic_name scoped delete_kafka_state delete_names
namespaces_apart deletes ns own name k h h' plain apart =
    let keeps = λ (n : String). not (starts_with n (append_text ns ".") && deletes n) in
    let foreign = other ns own name h h' apart in
    (
      contains-filter keeps k.topics (topic_name own name) ∙ rw foreign (always _),
      elim (Bool-cases (own == default_namespace)) [
        | inl q ↦
            rw q (contains-filter keeps k.groups name ∙ rw (undotted ns name plain) (always _))
        | inr q ↦
            rw q (contains-filter keeps k.groups (topic_name own name) ∙ rw foreign (always _))
      ],
    )
  where
    always : (b : Bool) → (b && true) ≡ b
    always b = ground arith
