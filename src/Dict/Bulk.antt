-- ===== src/Dict/Bulk.antt =====
-- Deleting many keys of a dict, one after the other.
use wikistream_kafka.Prelude.{
  ◌≤◌, ◌<◌, ◌≡◌, refl, inl, inr, true, none, some, List, [], ◌∷◌, arith, Keyed, ◌==◌, contains,
  if◌then◌else◌, Bool-cases, length, All,
}
use wikistream_kafka.Dict
use wikistream_kafka.Dict.{
  Dict, Distinct, get-remove, length-remove-le, length-remove-lt, remove-Distinct, All-remove,
}

module _ {ℓ κ} {K : Type ℓ} {V : Type κ} ⦃equality : Keyed K⦄ where
  -- `del d[k]` for each key of the list
  unfoldable pub delete_all : Dict K V → List K → Dict K V
  delete_all d [] = d
  delete_all d (k ∷ ks) = delete_all (Dict.remove d k) ks

  pub get-delete_all :
      (d : Dict K V) (ks : List K) (k : K)
      → Dict.get (delete_all d ks) k ≡ (if contains ks k then none else Dict.get d k)
  unfolding delete_all contains
  get-delete_all d [] k = refl
  get-delete_all d (j ∷ ks) k =
      ground (arith, get-delete_all (Dict.remove d j) ks k, get-remove d j k)

  pub length-delete_all-le : (d : Dict K V) (ks : List K) → length (delete_all d ks) ≤ length d
  unfolding delete_all
  length-delete_all-le d [] = omega arith
  length-delete_all-le d (j ∷ ks) =
      omega (arith, length-delete_all-le (Dict.remove d j) ks, length-remove-le d j)

  pub length-delete_all-lt :
      (d : Dict K V) (ks : List K) (k : K) (w : V)
      → contains ks k ≡ true
      → Dict.get d k ≡ some w
      → length (delete_all d ks) < length d
  unfolding delete_all contains
  length-delete_all-lt d [] k w c h = absurd (ground arith)
  length-delete_all-lt d (j ∷ ks) k w c h = elim (Bool-cases (j == k)) [
    | inl q ↦
        let same : j ≡ k = (equality.same_iff j k).0 q in
        let smaller : length (Dict.remove d j) < length d = rw same (length-remove-lt d k w h) in
        omega (arith, length-delete_all-le (Dict.remove d j) ks)
    | inr q ↦
        let kept : Dict.get (Dict.remove d j) k ≡ some w = rw (get-remove d j k, q) h in
        omega (
          arith,
          length-delete_all-lt (Dict.remove d j) ks k w (ground arith) kept,
          length-remove-le d j,
        )
  ]

module _ {K V : Type 0} ⦃equality : Keyed K⦄ where
  pub delete_all-Distinct : (d : Dict K V) (ks : List K) → Distinct d → Distinct (delete_all d ks)
  unfolding delete_all
  delete_all-Distinct d [] h = h
  delete_all-Distinct d (k ∷ ks) h =
      delete_all-Distinct (Dict.remove d k) ks (remove-Distinct d k h)

  pub All-delete_all :
      (P : K × V → Type 0) (d : Dict K V) (ks : List K) → All P d → All P (delete_all d ks)
  unfolding delete_all
  All-delete_all P d [] h = h
  All-delete_all P d (k ∷ ks) h = All-delete_all P (Dict.remove d k) ks (All-remove P d k h)
