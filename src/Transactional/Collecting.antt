-- ===== src/Transactional/Collecting.antt =====
-- processors/transactional.py: what `collect_batch` and a commit do to the offsets.
use wikistream_kafka.Prelude.{
  ℕ, ◌≡◌, refl, inl, inr, none, some, List, [], ◌∷◌, nat_eq, ◌==◌, Bool-cases, In, length, leb, not,
  ◌||◌,
}
use wikistream_kafka.Dict
use wikistream_kafka.Dict.{Dict, get-put, get-remove}
use wikistream_kafka.Transactional.{
  Message, Hooks, Processor, Broker, Poll, nothing, retried, received, assigns, revokes, signal,
  stop, take_partitions, release_partitions, on_assign, on_revoke, polled, collect_from, abort,
  send_offsets,
}
use wikistream_kafka.Transactional.Batches.{
  offsets_of, Allowed, Orderly, Tracks, Tracks-received, Tracks-take, Tracks-release,
}

module _ {S V Out : Type 0} (hooks : Hooks S V Out) where
  Tracks-take_all :
      (positions committed : Dict ℕ ℕ) (done batch : List (Message V)) (qs : List ℕ)
      → ((q : ℕ) → In q qs → offsets_of q batch ≡ [])
      → Tracks positions committed done batch
      → Tracks (take_partitions hooks committed positions qs) committed done batch
  unfolding take_partitions
  Tracks-take_all positions committed done batch [] e h = h
  Tracks-take_all positions committed done batch (q ∷ qs) e h =
      Tracks-take_all (Dict.put positions q (Dict.get_or committed q 0)) committed done batch qs
        (λ r m. e r (inr m)) (Tracks-take positions committed done batch q (e q (inl refl)) h)

  Tracks-release_all :
      (positions committed : Dict ℕ ℕ) (done batch : List (Message V)) (qs : List ℕ)
      → ((q : ℕ) → In q qs → offsets_of q batch ≡ [])
      → Tracks positions committed done batch
      → Tracks (release_partitions hooks positions qs) committed done batch
  unfolding release_partitions
  Tracks-release_all positions committed done batch [] e h = h
  Tracks-release_all positions committed done batch (q ∷ qs) e h =
      Tracks-release_all (Dict.remove positions q) committed done batch qs (λ r m. e r (inr m))
        (Tracks-release positions committed done batch q (e q (inl refl)) h)

  positions-on_revoke :
      (p : Processor S) (qs : List ℕ)
      → (on_revoke hooks p qs).positions ≡ release_partitions hooks p.positions qs
  unfolding on_revoke abort
  positions-on_revoke p qs = elim (Bool-cases p.in_transaction) [
    | inl e ↦ rw e refl
    | inr e ↦ rw e refl
  ]

  Tracks-polled :
      (p : Processor S) (b : Broker Out) (done batch : List (Message V)) (x : Poll V)
      → Allowed hooks p batch x
      → Tracks p.positions b.committed done batch
      → Tracks (polled hooks p b batch x).0.positions b.committed done (polled hooks p b batch x).1
  unfolding polled Allowed on_assign stop
  Tracks-polled p b done batch nothing a h = h
  Tracks-polled p b done batch retried a h = h
  Tracks-polled p b done batch (received m) a h =
      Tracks-received p.positions b.committed done batch m a h
  Tracks-polled p b done batch (assigns qs) a h =
      Tracks-take_all p.positions b.committed done batch qs (λ q m. h.own q (a q m)) h
  Tracks-polled p b done batch (revokes qs) a h =
      rw (positions-on_revoke p qs) (Tracks-release_all p.positions b.committed done batch qs a h)
  Tracks-polled p b done batch signal a h = h

  -- What `collect_batch` keeps true.
  pub Tracks-collect_from :
      (p : Processor S) (b : Broker Out) (done batch : List (Message V)) (polls : List (Poll V))
      → Orderly hooks p b batch polls
      → Tracks p.positions b.committed done batch
      → Tracks
          (collect_from hooks p b batch polls).0.positions
          b.committed
          done
          (collect_from hooks p b batch polls).1
  unfolding collect_from Orderly
  Tracks-collect_from p b done batch [] o h = h
  Tracks-collect_from p b done batch (x ∷ polls) o h =
      elim (Bool-cases (not p.running || leb p.max_batch (length batch))) [
        | inl e ↦ rw (collect_from, e) h
        | inr e ↦
            rw (collect_from, e)
              (Tracks-collect_from (polled hooks p b batch x).0 b done (polled hooks p b batch x).1
                polls o.1 (Tracks-polled p b done batch x o.0 h))
      ]

pub get-send_offsets :
    {S V Out : Type 0} (hooks : Hooks S V Out) (committed positions : Dict ℕ ℕ) (q : ℕ)
    → Dict.get (send_offsets hooks committed positions) q
      ≡ elim (Dict.get positions q) [ none ↦ Dict.get committed q | some n ↦ some n ]
unfolding send_offsets Dict.get
get-send_offsets hooks committed [] q = refl
get-send_offsets hooks committed ((r, n) ∷ positions) q = elim (Bool-cases (r == q)) [
  | inl e ↦ rw (get-put (send_offsets hooks committed positions) r q n, e) refl
  | inr e ↦
      rw (get-put (send_offsets hooks committed positions) r q n, e)
        (get-send_offsets hooks committed positions q)
]
