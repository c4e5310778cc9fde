-- ===== src/Transactional/Batches.antt =====
-- processors/transactional.py: the offsets that a batch holds while `collect_batch` fills it.
use wikistream_kafka.Prelude.{
  ℕ, zero, suc, ◌+◌, ◌≡◌, refl, sym, ap, ◌∙◌, subst, inl, inr, none, some, List, [], ◌∷◌, ◌++◌,
  append-nil, append_assoc, arith, nat_eq, ◌==◌, if◌then◌else◌, Bool-cases, In,
}
use wikistream_kafka.Dict
use wikistream_kafka.Dict.{Dict, get-put, get-remove}
use wikistream_kafka.Transactional.{
  Message, Hooks, Processor, Broker, Poll, nothing, retried, received, assigns, revokes, signal,
  polled,
}

module _ {V : Type 0} where
  -- The offsets of the messages of one partition, in order.
  unfoldable pub offsets_of : ℕ → List (Message V) → List ℕ
  offsets_of q [] = []
  offsets_of q (m ∷ batch) =
      let rest = offsets_of q batch in if m.partition == q then m.offset ∷ rest else rest

  pub offsets_of-append :
      (q : ℕ) (front back : List (Message V))
      → offsets_of q (front ++ back) ≡ offsets_of q front ++ offsets_of q back
  unfolding offsets_of
  offsets_of-append q [] back = refl
  offsets_of-append q (m ∷ front) back = elim (Bool-cases (m.partition == q)) [
    | inl e ↦ rw (e, offsets_of-append q front back) refl
    | inr n ↦ rw (n, offsets_of-append q front back) refl
  ]

-- The offsets below a number, in order.
unfoldable pub upto : ℕ → List ℕ
upto zero = []
upto (suc n) = upto n ++ n ∷ []

upto-next : (n : ℕ) → upto (n + 1) ≡ upto n ++ n ∷ []
unfolding upto
upto-next n = let e : n + 1 ≡ suc n = omega arith in ap upto e

module _ {S V Out : Type 0} (hooks : Hooks S V Out) where
  -- What Kafka's consumer grants: records come in order, from assigned partitions only, and a
  -- partition is given only when it is not held. And what the code needs besides: no partition is
  -- taken away while the batch holds messages of it.
  unfoldable pub Allowed : Processor S → List (Message V) → Poll V → Type 0
  Allowed p batch nothing = Unit
  Allowed p batch retried = Unit
  Allowed p batch (received m) = Dict.get p.positions m.partition ≡ some m.offset
  Allowed p batch (assigns qs) = (q : ℕ) → In q qs → Dict.get p.positions q ≡ none
  Allowed p batch (revokes qs) = (q : ℕ) → In q qs → offsets_of q batch ≡ []
  Allowed p batch signal = Unit

  unfoldable pub Orderly : Processor S → Broker Out → List (Message V) → List (Poll V) → Type 0
  Orderly p b batch [] = Unit
  Orderly p b batch (x ∷ polls) =
      Allowed p batch x × Orderly (polled hooks p b batch x).0 b (polled hooks p b batch x).1 polls

-- The messages that committed transactions hold reach up to the committed offset of each
-- partition, and with the batch up to the consumer's position.
pub record Tracks {V : Type 0} (positions committed : Dict ℕ ℕ) (done batch : List (Message V))
    : Type 0 where
  pub settled : (q : ℕ) → offsets_of q done ≡ upto (Dict.get_or committed q 0)
  pub ahead : (q n : ℕ) → Dict.get positions q ≡ some n → offsets_of q (done ++ batch) ≡ upto n
  pub own : (q : ℕ) → Dict.get positions q ≡ none → offsets_of q batch ≡ []

module _ {V : Type 0} where
  offsets_of-one :
      (q : ℕ) (m : Message V)
      → offsets_of q (m ∷ []) ≡ (if m.partition == q then m.offset ∷ [] else [])
  unfolding offsets_of
  offsets_of-one q m = refl

  -- The next message of a partition carries its offsets on.
  ahead-received :
      (positions : Dict ℕ ℕ) (sent : List (Message V)) (m : Message V)
      → Dict.get positions m.partition ≡ some m.offset
      → ((q n : ℕ) → Dict.get positions q ≡ some n → offsets_of q sent ≡ upto n)
      → (q n : ℕ) → Dict.get (Dict.put positions m.partition (m.offset + 1)) q ≡ some n
      → offsets_of q (sent ++ m ∷ []) ≡ upto n
  unfolding upto
  ahead-received positions sent m here h q n g = elim (Bool-cases (m.partition == q)) [
    | inl e ↦
        let same = (nat_eq.same_iff m.partition q).0 e in
        let next : m.offset + 1 ≡ n =
          ground (arith, get-put positions m.partition q (m.offset + 1)) in
        offsets_of-append q sent (m ∷ [])
        ∙ rw
            (
              offsets_of-one q m,
              e,
              sym next,
              h q m.offset (subst (λ (x : ℕ). Dict.get positions x ≡ some m.offset) same here),
            )
            (sym (upto-next m.offset))
    | inr n' ↦
        offsets_of-append q sent (m ∷ [])
        ∙ rw (offsets_of-one q m, n', append-nil (offsets_of q sent))
            (h q n (ground (arith, get-put positions m.partition q (m.offset + 1))))
  ]

  pub Tracks-received :
      (positions committed : Dict ℕ ℕ) (done batch : List (Message V)) (m : Message V)
      → Dict.get positions m.partition ≡ some m.offset
      → Tracks positions committed done batch
      → Tracks (Dict.put positions m.partition (m.offset + 1)) committed done (batch ++ m ∷ [])
  Tracks-received positions committed done batch m here h = record {
    settled = h.settled;
    ahead = λ q n g.
        ap (offsets_of q) (sym (append_assoc done batch (m ∷ [])))
        ∙ ahead-received positions (done ++ batch) m here h.ahead q n g;
    own = λ q g. elim (Bool-cases (m.partition == q)) [
      | inl e ↦ absurd (ground (arith, get-put positions m.partition q (m.offset + 1)))
      | inr n ↦
          offsets_of-append q batch (m ∷ [])
          ∙ rw (offsets_of-one q m, n, append-nil (offsets_of q batch))
              (h.own q (ground (arith, get-put positions m.partition q (m.offset + 1))))
    ];
  }

  -- A partition that is given starts at its committed offset.
  pub Tracks-take :
      (positions committed : Dict ℕ ℕ) (done batch : List (Message V)) (q : ℕ)
      → offsets_of q batch ≡ []
      → Tracks positions committed done batch
      → Tracks (Dict.put positions q (Dict.get_or committed q 0)) committed done batch
  Tracks-take positions committed done batch q none_yet h = record {
    settled = h.settled;
    ahead = λ r n g. elim (Bool-cases (q == r)) [
      | inl e ↦
          let same = (nat_eq.same_iff q r).0 e in
          let start : Dict.get_or committed q 0 ≡ n =
            ground (arith, get-put positions q r (Dict.get_or committed q 0)) in
          subst (λ (x : ℕ). offsets_of x (done ++ batch) ≡ upto n) same
            (offsets_of-append q done batch
              ∙ rw (none_yet, append-nil (offsets_of q done), sym start) (h.settled q))
      | inr n' ↦ h.ahead r n (ground (arith, get-put positions q r (Dict.get_or committed q 0)))
    ];
    own = λ r g. elim (Bool-cases (q == r)) [
      | inl e ↦ absurd (ground (arith, get-put positions q r (Dict.get_or committed q 0)))
      | inr n ↦ h.own r (ground (arith, get-put positions q r (Dict.get_or committed q 0)))
    ];
  }

  pub Tracks-release :
      (positions committed : Dict ℕ ℕ) (done batch : List (Message V)) (q : ℕ)
      → offsets_of q batch ≡ []
      → Tracks positions committed done batch
      → Tracks (Dict.remove positions q) committed done batch
  Tracks-release positions committed done batch q none_left h = record {
    settled = h.settled;
    ahead = λ r n g. h.ahead r n (ground (arith, get-remove positions q r));
    own = λ r g. elim (Bool-cases (q == r)) [
      | inl e ↦ subst (λ (x : ℕ). offsets_of x batch ≡ []) ((nat_eq.same_iff q r).0 e) none_left
      | inr n ↦ h.own r (ground (arith, get-remove positions q r))
    ];
  }
