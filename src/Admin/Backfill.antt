-- ===== src/Admin/Backfill.antt =====
-- admin/backfill_reverts.py: the loop ends, with the flag of every row known.
use wikistream_kafka.Prelude.{
  ℕ, zero, suc, ◌+◌, ◌-◌, ◌<◌, ◌≡◌, refl, sym, ap, ◌∙◌, inl, inr, String, Bool, false, ◌&&◌, not,
  min, some, List, [], ◌∷◌, map, length, ltb, ◌==◌, filter, if◌then◌else◌, nat_eq, arith,
  Bool-cases,
}
use wikistream_kafka.Admin.{Edit, unknown, verdict, fill, backfill}

-- The row with its flag.
unfoldable pub resolve : (String → Bool) → Edit → Edit
resolve is_revert_comment e =
    if unknown e then record e { is_revert = some (verdict is_revert_comment e) } else e

abbrev pub unknowns : List Edit → ℕ
unknowns edits = length (filter unknown edits)

unknowns-cons :
    (e : Edit) (edits : List Edit)
    → unknowns (e ∷ edits) ≡ (if unknown e then 1 else 0) + unknowns edits
unfolding filter
unknowns-cons e edits = ground arith

module _ (is_revert_comment : String → Bool) where
  known-resolve : (e : Edit) → unknown e ≡ false → resolve is_revert_comment e ≡ e
  unfolding resolve
  known-resolve e h = rw h refl

  -- One row of a batch.
  fill_one : Bool → Edit → Edit
  fill_one chosen e =
      if chosen then record e { is_revert = some (verdict is_revert_comment e) } else e

  resolve-fill_one :
      (e : Edit) (room : Bool)
      → resolve is_revert_comment (fill_one (unknown e && room) e) ≡ resolve is_revert_comment e
  unfolding resolve fill_one
  resolve-fill_one e room = elim (Bool-cases (unknown e)) [
    | inl q ↦ elim (Bool-cases room) [ inl r ↦ rw (q, r) refl | inr r ↦ rw (q, r) (rw q refl) ]
    | inr q ↦ rw q (rw q refl)
  ]

  map-fill :
      (edits : List Edit) (room : ℕ)
      → map (resolve is_revert_comment) (fill is_revert_comment room edits)
        ≡ map (resolve is_revert_comment) edits
  unfolding fill fill_one
  map-fill [] room = refl
  map-fill (e ∷ edits) room = λ i.
      resolve-fill_one e (ltb 0 room) i
      ∷ map-fill edits (if unknown e && ltb 0 room then room - 1 else room) i

  all_known :
      (edits : List Edit) → unknowns edits ≡ 0 → map (resolve is_revert_comment) edits ≡ edits
  unfolding filter
  all_known [] h = refl
  all_known (e ∷ edits) h = elim (Bool-cases (unknown e)) [
    | inl q ↦ absurd (ground arith)
    | inr q ↦ λ i. known-resolve e q i ∷ all_known edits (ground arith) i
  ]

  unknown-fill_one :
      (e : Edit) (room : Bool) → unknown (fill_one (unknown e && room) e) ≡ (unknown e && not room)
  unfolding fill_one
  unknown-fill_one e room = elim (Bool-cases (unknown e)) [
    | inl q ↦ elim (Bool-cases room) [ inl r ↦ rw (q, r) refl | inr r ↦ rw (q, r) q ]
    | inr q ↦ rw q q
  ]

  -- A batch takes as many unknown rows as fit.
  unknowns-fill :
      (edits : List Edit) (room : ℕ)
      → unknowns (fill is_revert_comment room edits) + min room (unknowns edits) ≡ unknowns edits
  unfolding fill fill_one
  unknowns-fill [] room = unfold filter in omega arith
  unknowns-fill (e ∷ edits) room =
      let chosen = unknown e && ltb 0 room in
      let rest = fill is_revert_comment (if chosen then room - 1 else room) edits in
      ground (
        arith,
        unknowns-cons e edits,
        unknowns-cons (fill_one chosen e) rest,
        unknown-fill_one e (ltb 0 room),
        unknowns-fill edits room,
        unknowns-fill edits (room - 1),
      )

  backfill-all :
      (batch fuel : ℕ) (edits : List Edit)
      → 0 < batch
      → unknowns edits < fuel
      → backfill is_revert_comment batch fuel edits ≡ some (map (resolve is_revert_comment) edits)
  unfolding backfill
  backfill-all batch zero edits h k = absurd (omega arith)
  backfill-all batch (suc fuel) edits h k = elim (Bool-cases (unknowns edits == 0)) [
    | inl q ↦ rw q (ap some (sym (all_known edits (ground arith))))
    | inr q ↦
        let positive : 0 < unknowns edits = ground arith in
        rw q (
          backfill-all batch fuel (fill is_revert_comment batch edits) h
            (omega (arith, unknowns-fill edits batch))
          ∙ ap some (map-fill edits batch))
  ]

-- The backfill ends, with as many batches as there are rows whose flag is not known and one more, and
-- then every such row has the flag that the revert detector gives its type and comment, while every
-- other row is as it was.
pub backfill_complete :
    (is_revert_comment : String → Bool) (batch : ℕ) (edits : List Edit)
    → 0 < batch
    → backfill is_revert_comment batch (suc (unknowns edits)) edits
      ≡ some (map (resolve is_revert_comment) edits)
backfill_complete is_revert_comment batch edits h =
    backfill-all is_revert_comment batch (suc (unknowns edits)) edits h (omega arith)
