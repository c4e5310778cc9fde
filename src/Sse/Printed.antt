-- ===== src/Sse/Printed.antt =====
-- ingestor/sse.py: what a server prints, the parser reads back.
use Prim.Native.Char.{Char, code}
use text.Mathlib.TextLemmas.{nil-append, cons-append}
use wikistream_kafka.Prelude.{
  ◌≡◌, refl, String, append_text, ap, Bool, true, false, if◌then◌else◌, nat_eq, ◌==◌, arith, none,
  string_eq, Bool-cases, inl, inr,
}
use wikistream_kafka.Sse.{SseParser, partition, strip_space, feed, set_field, is_comment}

-- No colon in a text.
unfoldable pub no_colon : String → Bool
no_colon (String.[]) = true
no_colon (String.◌∷◌ c s) = let rest = no_colon s in if code c == 58 then false else rest

unfoldable pub print_field : String → String → String
print_field name value = append_text name (append_text ":" (append_text " " value))

after_colon : (s : String) → partition (append_text ":" s) ≡ ("", s)
unfolding partition
after_colon s = rw (cons-append, nil-append) refl

strip_space-space : (s : String) → strip_space (append_text " " s) ≡ s
unfolding strip_space
strip_space-space s = rw (cons-append, nil-append) refl

partition-colon :
    (name value : String)
    → no_colon name ≡ true
    → partition (append_text name (append_text ":" value)) ≡ (name, value)
unfolding partition no_colon
partition-colon (String.[]) value h = simp (nil-append, after_colon)
partition-colon (String.◌∷◌ c s) value h =
    rw (cons-append c s (append_text ":" value)) (ground (arith, partition-colon s value))

print_field-cons :
    (c : Char) (s value : String)
    → print_field (String.◌∷◌ c s) value
      ≡ String.◌∷◌ c (append_text s (append_text ":" (append_text " " value)))
unfolding print_field
print_field-cons c s value = cons-append c s (append_text ":" (append_text " " value))

abbrev empty : String → Bool
empty (String.[]) = true
empty (String.◌∷◌ c s) = false

cons-not_empty : (c : Char) (s : String) → (String.◌∷◌ c s == "") ≡ false
cons-not_empty c s = elim (Bool-cases (String.◌∷◌ c s == "")) [
  | inl q ↦ absurd (filled ((string_eq.same_iff (String.◌∷◌ c s) "").0 q))
  | inr q ↦ q
]
  where
    filled : String.◌∷◌ c s ≡ "" → ⊥
    filled e = let b : false ≡ true = ap empty e in absurd (cc)

-- A printed field is no comment and no blank line, and sets what it names.
pub feed-print_field :
    (p : SseParser) (name value : String)
    → no_colon name ≡ true
    → (name == "") ≡ false
    → feed p (print_field name value) ≡ (set_field p name value, none)
unfolding feed
feed-print_field p (String.[]) value h named = absurd (cc)
feed-print_field p (String.◌∷◌ c s) value h named =
    let split : partition (print_field (String.◌∷◌ c s) value)
        ≡ (String.◌∷◌ c s, append_text " " value) =
      unfold print_field in partition-colon (String.◌∷◌ c s) (append_text " " value) h in
    let code_there : is_comment (print_field (String.◌∷◌ c s) value) ≡ false =
      rw print_field-cons (unfold is_comment no_colon in ground (arith)) in
    let text_there : (print_field (String.◌∷◌ c s) value == "") ≡ false =
      rw print_field-cons (cons-not_empty c _) in
    rw (split, code_there, text_there, strip_space-space value) refl
