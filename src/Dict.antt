-- ===== src/Dict.antt =====
-- A Python dict: an association list in insertion order. Assigning to a key that is there keeps
-- its place, a new key goes to the end.
pub mod Bulk
use wikistream_kafka.Prelude.{
  ℕ, suc, ◌+◌, ◌≤◌, ◌<◌, ◌≡◌, refl, ap, ◌⊎◌, inl, inr, Bool, true, false, Option, none, some, List,
  [], ◌∷◌, map, arith, Keyed, ◌==◌, same_refl, contains, if◌then◌else◌, Bool-cases, length, All,
}

abbrev pub Dict {ℓ κ} : Type ℓ → Type κ → Type (ℓ ⊔ κ)
Dict K V = List (K × V)

abbrev pub keys {ℓ κ} : {K : Type ℓ} {V : Type κ} → Dict K V → List K
keys = map (λ e. e.0)

abbrev pub values {ℓ κ} : {K : Type ℓ} {V : Type κ} → Dict K V → List V
values = map (λ e. e.1)

module _ {ℓ κ} {K : Type ℓ} {V : Type κ} ⦃equality : Keyed K⦄ where
  -- `d.get(k)`
  unfoldable pub get : Dict K V → K → Option V
  get [] k = none
  get ((j, w) ∷ d) k = let rest = get d k in if j == k then some w else rest

  -- `d[k] = v`
  unfoldable pub put : Dict K V → K → V → Dict K V
  put [] k v = (k, v) ∷ []
  put ((j, w) ∷ d) k v = let rest = put d k v in if j == k then (j, v) ∷ d else (j, w) ∷ rest

  -- `d.pop(k, None)` and `del d[k]`
  unfoldable pub remove : Dict K V → K → Dict K V
  remove [] k = []
  remove ((j, w) ∷ d) k = let rest = remove d k in if j == k then rest else (j, w) ∷ rest

  -- the value of `d.setdefault(k, v)`; the dict is `put d k` of it
  unfoldable pub get_or : Dict K V → K → V → V
  get_or d k v = elim (get d k) [ none ↦ v | some w ↦ w ]

  pub get-put :
      (d : Dict K V) (key other : K) (value : V)
      → get (put d key value) other ≡ (if key == other then some value else get d other)
  unfolding get put
  get-put [] key other value = refl
  get-put ((i, w) ∷ rest) key other value = ground (
    arith,
    equality.same_iff i key,
    equality.same_iff key other,
    equality.same_iff i other,
    get-put rest key other value,
  )

  pub get-put_self : (d : Dict K V) (k : K) (v : V) → get (put d k v) k ≡ some v
  get-put_self d k v = simp (get-put, same_refl)

  pub get-remove :
      (d : Dict K V) (gone other : K)
      → get (remove d gone) other ≡ (if gone == other then none else get d other)
  unfolding get remove
  get-remove [] gone other = ground arith
  get-remove ((i, w) ∷ rest) gone other = ground (
    arith,
    equality.same_iff i gone,
    equality.same_iff gone other,
    equality.same_iff i other,
    get-remove rest gone other,
  )

  pub get-remove_self : (d : Dict K V) (k : K) → get (remove d k) k ≡ none
  get-remove_self d k = simp (get-remove, same_refl)

  -- An assignment to a key that holds the value already changes nothing.
  pub put_same : (d : Dict K V) (k : K) (v : V) → get d k ≡ some v → put d k v ≡ d
  unfolding get put
  put_same [] k v h = ground arith
  put_same ((i, w) ∷ d) k v h = ground (arith, put_same d k v)

  pub length-put-le : (d : Dict K V) (k : K) (v : V) → length (put d k v) ≤ suc (length d)
  unfolding put
  length-put-le [] k v = omega arith
  length-put-le ((i, w) ∷ d) k v = ground (arith, length-put-le d k v)

-- Presence and size.
module _ {ℓ κ} {K : Type ℓ} {V : Type κ} ⦃equality : Keyed K⦄ where
  -- `k in d`
  pub contains-keys :
      (d : Dict K V) (k : K) → contains (keys d) k ≡ elim (get d k) [ none ↦ false | some v ↦ true ]
  unfolding contains get
  contains-keys [] k = refl
  contains-keys ((j, w) ∷ d) k = ground (arith, contains-keys d k)

  pub length-remove-le : (d : Dict K V) (k : K) → length (remove d k) ≤ length d
  unfolding remove
  length-remove-le [] k = omega arith
  length-remove-le ((j, w) ∷ d) k = ground (arith, length-remove-le d k)

  pub length-remove-lt :
      (d : Dict K V) (k : K) (v : V) → get d k ≡ some v → length (remove d k) < length d
  unfolding remove get
  length-remove-lt [] k v h = absurd (ground arith)
  length-remove-lt ((j, w) ∷ d) k v h = ground (arith, length-remove-le d k, length-remove-lt d k v)

pub ruleset dict_laws = (get-put, get-put_self, get-remove, get-remove_self)

-- A predicate on the entries, through each operation.
module _ {K V : Type 0} ⦃equality : Keyed K⦄ (P : K × V → Type 0) where
  pub All-put : (d : Dict K V) (k : K) (v : V) → All P d → P (k, v) → All P (put d k v)
  unfolding put
  All-put [] k v h p = (p, tt)
  All-put ((i, w) ∷ d) k v h p = elim (Bool-cases (i == k)) [
    | inl q ↦ rw q (rw ((equality.same_iff i k).0 q) p, h.1)
    | inr q ↦ rw q (h.0, All-put d k v h.1 p)
  ]

  pub All-get : (d : Dict K V) (k : K) (v : V) → All P d → get d k ≡ some v → P (k, v)
  unfolding get
  All-get [] k v h g = absurd (ground arith)
  All-get ((i, w) ∷ d) k v h g = elim (Bool-cases (i == k)) [
    | inl q ↦ let found : w ≡ v = ground arith in rw (← found, ← (equality.same_iff i k).0 q) h.0
    | inr q ↦ All-get d k v h.1 (ground arith)
  ]

  pub All-remove : (d : Dict K V) (k : K) → All P d → All P (remove d k)
  unfolding remove
  All-remove [] k h = tt
  All-remove ((i, w) ∷ d) k h = elim (Bool-cases (i == k)) [
    | inl q ↦ rw q (All-remove d k h.1)
    | inr q ↦ rw q (h.0, All-remove d k h.1)
  ]

-- No key twice: what a Python dict guarantees, kept by each operation.
module _ {K V : Type 0} ⦃equality : Keyed K⦄ where
  abbrev pub Distinct : Dict K V → Type 0
  Distinct [] = Unit
  Distinct ((k, v) ∷ d) = (get d k ≡ none) × Distinct d

  pub put-Distinct : (d : Dict K V) (k : K) (v : V) → Distinct d → Distinct (put d k v)
  unfolding put get
  put-Distinct [] k v h = (refl, tt)
  put-Distinct ((j, w) ∷ d) k v h = elim (Bool-cases (j == k)) [
    | inl q ↦ rw q h
    | inr q ↦ rw q (
      ground (arith, get-put d k j v, equality.same_iff k j, equality.same_iff j k),
      put-Distinct d k v h.1,
    )
  ]

  pub remove-Distinct : (d : Dict K V) (k : K) → Distinct d → Distinct (remove d k)
  unfolding remove
  remove-Distinct [] k h = tt
  remove-Distinct ((j, w) ∷ d) k h = elim (Bool-cases (j == k)) [
    | inl q ↦ rw q (remove-Distinct d k h.1)
    | inr q ↦ rw q (ground (arith, get-remove d k j), remove-Distinct d k h.1)
  ]

  pub All-of_get :
      (P : K × V → Type 0) (d : Dict K V)
      → Distinct d
      → ((k : K) (v : V) → get d k ≡ some v → P (k, v))
      → All P d
  unfolding get
  All-of_get P [] h f = tt
  All-of_get P ((j, w) ∷ d) h f = (
    f j w (rw (same_refl j)),
    All-of_get P d h.1 (λ k v g. f k v (elim (Bool-cases (j == k)) [
      | inl q ↦ absurd (ground (arith, equality.same_iff j k))
      | inr q ↦ rw q g
    ])),
  )
