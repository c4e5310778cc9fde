-- ===== src/Ingestor/Safety.antt =====
-- ingestor/main.py: the checkpoint, in memory and in the file, never passes a message that Kafka has
-- not confirmed.
use wikistream_kafka.Prelude.{
  ℕ, ◌+◌, ◌-◌, ◌≤◌, ◌≡◌, refl, sym, ap, ◌∙◌, subst, inl, inr, String, true, ◌||◌, ◌&&◌, Option,
  none, List, [], ◌∷◌, ◌++◌, arith, nat_eq, contains, ltb, leb, if◌then◌else◌, length,
  length-append, All, Bool-cases, append-nil, append_assoc, nat_beq_iff,
}
use wikistream_kafka.Ingestor.{Sent, newest, truthy, confirm, Checkpoint, advance}
use wikistream_kafka.Ingestor.Tracker.{
  newest_of, Ascending, Follows, Follows-start, confirm-Follows,
}
use wikistream_kafka.Ingestor.Process.{Ingestor, ingestor, maybe_save, save_every, save_interval_ms}

-- The checkpoint behind the messages of a list, from the one that was loaded.
abbrev pub behind : Checkpoint → List Sent → Checkpoint
behind loaded released = record {
  last_event_id = newest_of loaded.last_event_id released;
  events_confirmed = loaded.events_confirmed + length released;
}

-- The ingestor after the messages `sent`, of which those numbered in `log` were delivered: the
-- checkpoint is behind a prefix of them that was delivered, the file behind a prefix of that.
pub record Safe (loaded : Checkpoint) (g : Ingestor) (sent : List Sent) (log : List ℕ)
    : Type 0 where
  pub released : List Sent
  pub follows : Follows g.tracker sent released log
  pub checkpoint : g.checkpoint ≡ behind loaded released
  pub stored : List Sent
  pub later : List Sent
  pub order : released ≡ stored ++ later
  pub file : g.saved ≡ behind loaded stored
  pub waiting : g.unsaved ≡ length later
  pub numbered : (n : ℕ) → contains log n ≡ true → n ≤ g.seq
  pub ascending : Ascending sent
  pub below : All (λ s. s.0 ≤ g.seq) sent

newest_assoc :
    (old mid new : Option String) → newest old (newest mid new) ≡ newest (newest old mid) new
newest_assoc old mid new = elim (Bool-cases (truthy new)) [
  | inl q ↦ ground (arith, q)
  | inr q ↦ ground (arith, q)
]

newest-newest_of :
    (old mid : Option String) (batch : List Sent)
    → newest old (newest_of mid batch) ≡ newest_of (newest old mid) batch
unfolding newest_of
newest-newest_of old mid [] = refl
newest-newest_of old mid (s ∷ batch) =
    newest-newest_of old (newest mid s.1) batch
    ∙ ap (λ (x : Option String). newest_of x batch) (newest_assoc old mid s.1)

newest_of-append :
    (old : Option String) (xs ys : List Sent)
    → newest_of old (xs ++ ys) ≡ newest_of (newest_of old xs) ys
unfolding newest_of
newest_of-append old [] ys = refl
newest_of-append old (x ∷ xs) ys = newest_of-append (newest old x.1) xs ys

pub Safe-start : (loaded : Checkpoint) (now : ℕ) → Safe loaded (ingestor loaded now) [] []
unfolding newest_of contains
Safe-start loaded now = record {
  released = [];
  follows = Follows-start;
  checkpoint = ground arith;
  stored = [];
  later = [];
  order = refl;
  file = ground arith;
  waiting = refl;
  numbered = λ n h. absurd (ground arith);
  ascending = tt;
  below = tt;
}

pub maybe_save-Safe :
    (loaded : Checkpoint) (g : Ingestor) (now : ℕ) (sent : List Sent) (log : List ℕ)
    → Safe loaded g sent log
    → Safe loaded (maybe_save g now) sent log
unfolding maybe_save
maybe_save-Safe loaded g now sent log h =
    elim (Bool-cases
      (ltb 0 g.unsaved && (leb save_every g.unsaved || leb save_interval_ms (now - g.last_save)))) [
        | inl q ↦ rw q (record {
          released = h.released;
          follows = h.follows;
          checkpoint = h.checkpoint;
          stored = h.released;
          later = [];
          order = sym (append-nil h.released);
          file = h.checkpoint;
          waiting = refl;
          numbered = h.numbered;
          ascending = h.ascending;
          below = h.below;
        })
        | inr q ↦ rw q h
      ]

-- The state of `_on_delivery` before it saves.
abbrev pub confirmed : Ingestor → ℕ → Ingestor
confirmed g seq =
    let r = confirm g.tracker seq in
    let advanced : Ingestor = record g {
      tracker = r.tracker;
      checkpoint = advance g.checkpoint r.released r.count;
      unsaved = g.unsaved + r.count;
    } in
    let g' : Ingestor = if ltb 0 r.count then advanced else record g { tracker = r.tracker } in
    record g' { marked = g'.marked + 1 }

advance-behind :
    (loaded : Checkpoint) (released batch : List Sent)
    → advance (behind loaded released) (newest_of none batch) (length batch)
      ≡ behind loaded (released ++ batch)
unfolding advance
advance-behind loaded released batch =
    let id : newest (newest_of loaded.last_event_id released) (newest_of none batch)
        ≡ newest_of loaded.last_event_id (released ++ batch) =
      newest-newest_of (newest_of loaded.last_event_id released) none batch
      ∙ sym (newest_of-append loaded.last_event_id released batch) in
    let count : loaded.events_confirmed + length released + length batch
        ≡ loaded.events_confirmed + length (released ++ batch) =
      omega (arith, length-append released batch) in
    λ i. record { last_event_id = id i; events_confirmed = count i }

pub confirmed-Safe :
    (loaded : Checkpoint) (g : Ingestor) (seq : ℕ) (sent : List Sent) (log : List ℕ)
    → seq ≤ g.seq
    → Safe loaded g sent log
    → Safe loaded (confirmed g seq) sent (seq ∷ log)
confirmed-Safe loaded g seq sent log known h =
    let c = confirm-Follows g.tracker seq sent h.released log h.follows in
    let numbered : (n : ℕ) → contains (seq ∷ log) n ≡ true → n ≤ g.seq =
      λ n d. unfold contains in ground (arith, d, h.numbered n, nat_beq_iff seq n) in
    elim (Bool-cases (ltb 0 (confirm g.tracker seq).count)) [
      | inl q ↦ rw q (record {
        released = h.released ++ c.batch;
        follows = c.follows;
        checkpoint = rw (h.checkpoint, c.id, c.count) (advance-behind loaded h.released c.batch);
        stored = h.stored;
        later = h.later ++ c.batch;
        order =
            ap (λ (l : List Sent). l ++ c.batch) h.order ∙ append_assoc h.stored h.later c.batch;
        file = h.file;
        waiting = omega (arith, h.waiting, c.count, length-append h.later c.batch);
        numbered = numbered;
        ascending = h.ascending;
        below = h.below;
      })
      | inr q ↦
          let none_new : c.batch ≡ [] = no_batch c.batch (ground (arith, c.count)) in
          let same : h.released ++ c.batch ≡ h.released =
            ap (λ (l : List Sent). h.released ++ l) none_new ∙ append-nil h.released in
          rw q (record {
            released = h.released;
            follows =
                subst
                  (λ (l : List Sent). Follows (confirm g.tracker seq).tracker sent l (seq ∷ log))
                  same c.follows;
            checkpoint = h.checkpoint;
            stored = h.stored;
            later = h.later;
            order = h.order;
            file = h.file;
            waiting = h.waiting;
            numbered = numbered;
            ascending = h.ascending;
            below = h.below;
          })
    ]
  where
    no_batch : (l : List Sent) → length l ≡ 0 → l ≡ []
    no_batch [] e = refl
    no_batch (x ∷ l) e = absurd (omega arith)
