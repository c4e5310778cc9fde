-- ===== src/Prelude/Keys.antt =====
-- Keys with a Boolean equality: the interface of a Python set or dictionary.
use Prim.Native.Nat.{ℕ}
use Prim.Native.String.{String}
use mathlib.Core.Path.{◌≡◌, refl}
use mathlib.Core.Logic.{◌↔◌, inl, inr}
use mathlib.Core.Bool.{Bool, true, false, ◌&&◌, ◌||◌}
use mathlib.Core.List.{List, [], ◌∷◌}
use native.Mathlib.Omega.{arith}
use text.Mathlib.Text.{◌==◌ as str_eq}
use text.Mathlib.TextEquality.{eq_iff}
use wikistream_kafka.Prelude.Tests.{nat_beq, nat_beq_iff, if◌then◌else◌, Bool-cases}
use wikistream_kafka.Prelude.Lists.{In, filter}

-- The keys of a set or a dict are compared by `same`.
pub record Keyed {ℓ} (Key : Type ℓ) : Type ℓ where
  pub same : Key → Key → Bool
  pub same_iff : (j k : Key) → (same j k ≡ true) ↔ (j ≡ k)

infix 50 ◌==◌
abbrev pub ◌==◌ {ℓ} : {Key : Type ℓ} ⦃equality : Keyed Key⦄ → Key → Key → Bool
◌==◌ ⦃equality⦄ j k = equality.same j k

instance abbrev pub string_eq : Keyed String
string_eq = record { same_iff = eq_iff; same = str_eq }

instance abbrev pub nat_eq : Keyed ℕ
nat_eq = record { same_iff = nat_beq_iff; same = nat_beq }

module _ {ℓ} {A : Type ℓ} ⦃equality : Keyed A⦄ where
  pub same_refl : (a : A) → (a == a) ≡ true
  same_refl a = (equality.same_iff a a).1 refl

  -- `a in xs`
  unfoldable pub contains : List A → A → Bool
  contains [] a = false
  contains (x ∷ xs) a = x == a || contains xs a

  -- `set.add`
  unfoldable pub insert : List A → A → List A
  insert xs a = if contains xs a then xs else a ∷ xs

  pub contains-insert :
      (xs : List A) (a b : A) → contains (insert xs a) b ≡ (a == b || contains xs b)
  unfolding insert contains
  contains-insert xs a b = elim (Bool-cases (a == b)) [
    | inl q ↦ ground (arith, equality.same_iff a b)
    | inr q ↦ ground arith
  ]

  -- `set.discard`
  unfoldable pub discard : List A → A → List A
  discard [] a = []
  discard (x ∷ xs) a = let rest = discard xs a in if x == a then rest else x ∷ rest

  pub contains-discard :
      (xs : List A) (a b : A)
      → contains (discard xs a) b ≡ (if a == b then false else contains xs b)
  unfolding discard contains
  contains-discard [] a b = ground arith
  contains-discard (x ∷ xs) a b = ground (
    arith,
    equality.same_iff x a,
    equality.same_iff a b,
    equality.same_iff x b,
    contains-discard xs a b,
  )

  pub contains-filter :
      (p : A → Bool) (xs : List A) (a : A) → contains (filter p xs) a ≡ (contains xs a && p a)
  unfolding contains filter
  contains-filter p [] a = refl
  contains-filter p (x ∷ xs) a = ground (arith, equality.same_iff x a, contains-filter p xs a)

module _ {A : Type 0} ⦃equality : Keyed A⦄ where
  pub contains→In : (xs : List A) (a : A) → contains xs a ≡ true → In a xs
  unfolding contains
  contains→In [] a h = ground arith
  contains→In (x ∷ xs) a h = elim (Bool-cases (x == a)) [
    | inl q ↦ inl (ground (arith, equality.same_iff x a))
    | inr q ↦ inr (contains→In xs a (ground arith))
  ]

  pub In→contains : (xs : List A) (a : A) → In a xs → contains xs a ≡ true
  unfolding contains
  In→contains [] a h = absurd h
  In→contains (x ∷ xs) a (inl h) = ground (arith, equality.same_iff x a)
  In→contains (x ∷ xs) a (inr h) = ground (arith, In→contains xs a h)
