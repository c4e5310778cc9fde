-- ===== src/Transactional/Exactly.antt =====
-- processors/transactional.py: which messages the committed transactions hold, through crashes and
-- rebalances.
use wikistream_kafka.Prelude.{
  ℕ, ◌≡◌, refl, sym, ap, ◌∙◌, inl, inr, true, false, none, some, List, [], ◌∷◌, ◌++◌, append-nil,
  subst, append_assoc, nat_eq, Option-cases, arith,
}
use wikistream_kafka.Dict
use wikistream_kafka.Dict.{Dict}
use wikistream_kafka.Transactional.{
  Message, Hooks, Processor, Broker, Poll, commits, fails, collect_from, collect_batch, handle_all,
  send_offsets, process_batch, process_any, turn,
}
use wikistream_kafka.Transactional.Batches.{offsets_of, offsets_of-append, upto, Orderly, Tracks}
use wikistream_kafka.Transactional.Collecting.{Tracks-collect_from, get-send_offsets}

-- A commit moves an assigned partition to its position and no other.
unassigned :
    {S V Out : Type 0} (hooks : Hooks S V Out) (committed positions : Dict ℕ ℕ) (q : ℕ)
    → Dict.get positions q ≡ none
    → Dict.get_or (send_offsets hooks committed positions) q 0 ≡ Dict.get_or committed q 0
unfolding Dict.get_or
unassigned hooks committed positions q e =
    rw (Dict.get_or, get-send_offsets hooks committed positions q, e) refl

pub assigned_at :
    {S V Out : Type 0} (hooks : Hooks S V Out) (committed positions : Dict ℕ ℕ) (q n : ℕ)
    → Dict.get positions q ≡ some n
    → Dict.get_or (send_offsets hooks committed positions) q 0 ≡ n
unfolding Dict.get_or
assigned_at hooks committed positions q n e =
    rw (Dict.get_or, get-send_offsets hooks committed positions q, e) refl

module _ {S V Out : Type 0} (hooks : Hooks S V Out) (first : S) (max_batch : ℕ) where
  -- a new process
  abbrev pub started : Processor S
  started = record {
    state = first;
    positions = [];
    running = true;
    in_transaction = false;
    max_batch = max_batch;
  }

  abbrev pub empty_broker : Broker Out
  empty_broker = record { committed = []; output = [] }

  -- The messages whose transaction was committed, in the order of the commits, after rounds of the
  -- loop, crashes before or inside a transaction, and restarts.
  pub data Reach : Processor S → Broker Out → List (Message V) → Type 0 where
    begun : Reach started empty_broker []
    turned :
        {p : Processor S} {b : Broker Out} {done : List (Message V)}
        → Reach p b done
        → (polls : List (Poll V)) → Orderly hooks p b [] polls
        → Reach
            (turn hooks p b polls commits).0
            (turn hooks p b polls commits).1
            (done ++ (collect_batch hooks p b polls).1)
    crashed :
        {p : Processor S} {b : Broker Out} {done : List (Message V)}
        → Reach p b done
        → (polls : List (Poll V)) (n : ℕ) → Reach started (turn hooks p b polls (fails n)).1 done

  Tracks-commit :
      (positions committed : Dict ℕ ℕ) (done batch : List (Message V))
      → Tracks positions committed done batch
      → Tracks positions (send_offsets hooks committed positions) (done ++ batch) []
  unfolding offsets_of
  Tracks-commit positions committed done batch h = record {
    settled = λ q. elim (Option-cases (Dict.get positions q)) [
      | inl e ↦
          offsets_of-append q done batch
          ∙ rw (h.own q e, append-nil (offsets_of q done)) (h.settled q)
          ∙ ap upto (sym (unassigned hooks committed positions q e))
      | inr (n, e) ↦ h.ahead q n e ∙ ap upto (sym (assigned_at hooks committed positions q n e))
    ];
    ahead = λ q n g. ap (offsets_of q) (append-nil (done ++ batch)) ∙ h.ahead q n g;
    own = λ q g. refl;
  }

  -- One round with a commit: the positions and the committed offsets.
  Tracks-process_any :
      (p : Processor S) (b : Broker Out) (done batch : List (Message V))
      → Tracks p.positions b.committed done batch
      → Tracks
          (process_any hooks p b batch commits).0.positions
          (process_any hooks p b batch commits).1.committed
          (done ++ batch)
          []
  unfolding process_any process_batch
  Tracks-process_any p b done [] h = rw (append-nil done) h
  Tracks-process_any p b done (m ∷ batch) h =
      Tracks-commit p.positions b.committed done (m ∷ batch) h

  -- A transaction that does not commit leaves the broker alone.
  broker-process_any :
      (p : Processor S) (b : Broker Out) (batch : List (Message V)) (n : ℕ)
      → (process_any hooks p b batch (fails n)).1 ≡ b
  unfolding process_any process_batch
  broker-process_any p b [] n = refl
  broker-process_any p b (m ∷ batch) n = refl

  Tracks-started :
      (positions committed : Dict ℕ ℕ) (done : List (Message V))
      → Tracks positions committed done []
      → Tracks [] committed done []
  unfolding Dict.get offsets_of
  Tracks-started positions committed done h = record {
    settled = h.settled;
    ahead = λ q n g. absurd (ground arith);
    own = λ q g. refl;
  }

  Reach-Tracks :
      {p : Processor S} {b : Broker Out} {done : List (Message V)}
      → Reach p b done
      → Tracks p.positions b.committed done []
  unfolding turn collect_batch Dict.get Dict.get_or offsets_of upto
  Reach-Tracks begun = record {
    settled = λ q. refl;
    ahead = λ q n g. absurd (ground arith);
    own = λ q g. refl;
  }
  Reach-Tracks (turned {p} {b} {done} r polls o) =
      let c = collect_from hooks p b [] polls in
      Tracks-process_any c.0 b done c.1
        (Tracks-collect_from hooks p b done [] polls o (Reach-Tracks r))
  Reach-Tracks (crashed {p} {b} {done} r polls n) =
      let c = collect_from hooks p b [] polls in
      rw (broker-process_any c.0 b c.1 n)
        (Tracks-started p.positions b.committed done (Reach-Tracks r))

  -- The output of messages one after another: what `handle` gives for each, in some state.
  pub data Written : List (Message V) → List Out → Type 0 where
    nothing : Written [] []
    one :
        {batch : List (Message V)} {out : List Out}
        → (s : S) (m : Message V) → Written batch out
        → Written (m ∷ batch) ((hooks.handle s m).1 ++ out)

  Written-append :
      {front back : List (Message V)} {out more : List Out}
      → Written front out
      → Written back more
      → Written (front ++ back) (out ++ more)
  Written-append nothing h = h
  Written-append {back} {more} (one {batch} {out} s m w) h =
      subst (λ (x : List Out). Written (m ∷ batch ++ back) x)
        (sym (append_assoc (hooks.handle s m).1 out more)) (one s m (Written-append w h))

  -- What a batch writes is the output of its messages, after what was written before.
  handle_all-Written :
      (s : S) (batch : List (Message V)) (out : List Out)
      → (more : List Out) × ((handle_all hooks s batch out).1 ≡ out ++ more) × Written batch more
  unfolding handle_all
  handle_all-Written s [] out = ([], sym (append-nil out), nothing)
  handle_all-Written s (m ∷ batch) out =
      let own = (hooks.handle s m).1 in
      let (more, e, w) = handle_all-Written (hooks.handle s m).0 batch (out ++ own) in
      (own ++ more, e ∙ append_assoc out own more, one s m w)

  process_any-Written :
      (p : Processor S) (b : Broker Out) (done batch : List (Message V))
      → Written done b.output
      → Written (done ++ batch) (process_any hooks p b batch commits).1.output
  unfolding process_any process_batch
  process_any-Written p b done [] h = rw (append-nil done) h
  process_any-Written p b done (m ∷ batch) h =
      let (more, e, w) = handle_all-Written p.state (m ∷ batch) [] in rw e (Written-append h w)

  Reach-Written :
      {p : Processor S} {b : Broker Out} {done : List (Message V)}
      → Reach p b done
      → Written done b.output
  unfolding turn collect_batch
  Reach-Written begun = nothing
  Reach-Written (turned {p} {b} {done} r polls o) =
      let c = collect_from hooks p b [] polls in
      process_any-Written c.0 b done c.1 (Reach-Written r)
  Reach-Written (crashed {p} {b} {done} r polls n) =
      let c = collect_from hooks p b [] polls in
      rw (broker-process_any c.0 b c.1 n) (Reach-Written r)

  -- What read_committed consumers see is the output that `handle` gives for a list of messages, one
  -- after another, each in some state of the subclass; and of each partition the list holds every
  -- message below the committed offset once, in the order of the offsets, and no other. This holds
  -- after any rounds of the loop that commit, crashes inside or outside a transaction, restarts and
  -- rebalances, as long as no partition is taken away while the batch holds messages of it. A round
  -- whose transaction is aborted while the process goes on is not among them.
  pub exactly_once :
      {p : Processor S} {b : Broker Out} {done : List (Message V)}
      → Reach p b done
      → Written done b.output × ((q : ℕ) → offsets_of q done ≡ upto (Dict.get_or b.committed q 0))
  exactly_once r = (Reach-Written r, λ q. (Reach-Tracks r).settled q)
