-- ===== src/Ingestor/Tracker.antt =====
-- ingestor/main.py, `DeliveryTracker`: what has been released is the longest confirmed prefix of
-- what was sent.
use wikistream_kafka.Prelude.{
  ℕ, ◌+◌, ◌<◌, ◌≡◌, refl, sym, ap, ◌∙◌, ◌⊎◌, inl, inr, String, true, false, ◌||◌, Option, none,
  List, [], ◌∷◌, ◌++◌, map, arith, nat_eq, contains, contains-insert, contains-discard, insert,
  discard, length, All, All-map, All-append, Bool-cases, append_assoc,
}
use wikistream_kafka.Ingestor.{
  Sent, DeliveryTracker, delivery_tracker, register, newest, Released, release, confirm,
}

-- The newest id of a list of messages, over one to start from.
unfoldable pub newest_of : Option String → List Sent → Option String
newest_of old [] = old
newest_of old ((seq, stream_id) ∷ rest) = newest_of (newest old stream_id) rest

-- The head of the list is not confirmed.
abbrev pub Blocked : List ℕ → List Sent → Type 0
Blocked confirmed [] = Unit
Blocked confirmed ((seq, stream_id) ∷ rest) = contains confirmed seq ≡ false

-- The numbers grow.
abbrev pub Ascending : List Sent → Type 0
Ascending [] = Unit
Ascending ((seq, stream_id) ∷ rest) = All (λ s. seq < s.0) rest × Ascending rest

-- A tracker after the messages `sent`, of which those numbered `delivered` were confirmed, and
-- `released` are behind the checkpoint.
pub record Follows (t : DeliveryTracker) (sent released : List Sent) (delivered : List ℕ)
    : Type 0 where
  pub split : sent ≡ released ++ t.pending
  pub done : All (λ s. contains delivered s.0 ≡ true) released
  pub known : (n : ℕ) → contains t.confirmed n ≡ true → contains delivered n ≡ true
  pub kept :
      (n : ℕ)
      → contains delivered n ≡ true
      → (contains t.confirmed n ≡ true) ⊎ (contains (map (λ (s : Sent). s.0) released) n ≡ true)
  pub blocked : Blocked t.confirmed t.pending

-- What one run of the loop releases.
record Loop (pending : List Sent) (confirmed : List ℕ) (old : Option String) (n : ℕ) (r : Released)
    : Type 0 where
  batch : List Sent
  split : pending ≡ batch ++ r.tracker.pending
  done : All (λ s. contains confirmed s.0 ≡ true) batch
  known : (m : ℕ) → contains r.tracker.confirmed m ≡ true → contains confirmed m ≡ true
  kept :
      (m : ℕ)
      → contains confirmed m ≡ true
      → (contains r.tracker.confirmed m ≡ true)
        ⊎ (contains (map (λ (s : Sent). s.0) batch) m ≡ true)
  blocked : Blocked r.tracker.confirmed r.tracker.pending
  id : r.released ≡ newest_of old batch
  count : r.count ≡ n + length batch

release-Loop :
    (pending : List Sent) (confirmed : List ℕ) (old : Option String) (n : ℕ)
    → Loop pending confirmed old n (release pending confirmed old n)
unfolding release newest_of contains
release-Loop [] confirmed old n = record {
  batch = [];
  split = refl;
  done = tt;
  known = λ m h. h;
  kept = λ m h. inl h;
  blocked = tt;
  id = refl;
  count = omega arith;
}
release-Loop ((seq, stream_id) ∷ pending) confirmed old n =
    let rest = release-Loop pending (discard confirmed seq) (newest old stream_id) (n + 1) in
    let gone = contains-discard confirmed seq in
    elim (Bool-cases (contains confirmed seq)) [
      | inl q ↦ rw q (record {
        batch = (seq, stream_id) ∷ rest.batch;
        split = ap (◌∷◌ (seq, stream_id)) rest.split;
        done = (
          q,
          All-map (λ s. contains (discard confirmed seq) s.0 ≡ true)
              (λ s. contains confirmed s.0 ≡ true) rest.batch (λ s h. ground (arith, h, gone s.0))
              rest.done,
        );
        known = λ m h. ground (arith, rest.known m h, gone m);
        kept = λ m h. ground (arith, h, rest.kept m, gone m);
        blocked = rest.blocked;
        id = rest.id;
        count = omega (arith, rest.count);
      })
      | inr q ↦ rw q (record {
        batch = [];
        split = refl;
        done = tt;
        known = λ m h. h;
        kept = λ m h. inl h;
        blocked = q;
        id = refl;
        count = omega arith;
      })
    ]

pub Follows-start : Follows delivery_tracker [] [] []
unfolding contains
Follows-start = record {
  split = refl;
  done = tt;
  known = λ n h. h;
  kept = λ n h. inl h;
  blocked = tt;
}

register-Blocked :
    (pending : List Sent) (confirmed : List ℕ) (seq : ℕ) (stream_id : Option String)
    → contains confirmed seq ≡ false
    → Blocked confirmed pending
    → Blocked confirmed (pending ++ (seq, stream_id) ∷ [])
register-Blocked [] confirmed seq stream_id h b = h
register-Blocked (s ∷ pending) confirmed seq stream_id h b = b

-- A message that has not been delivered yet may be registered.
pub register-Follows :
    (t : DeliveryTracker) (sent released : List Sent) (delivered : List ℕ) (seq : ℕ)
    (stream_id : Option String)
    → contains delivered seq ≡ false
    → Follows t sent released delivered
    → Follows (register t seq stream_id) (sent ++ (seq, stream_id) ∷ []) released delivered
unfolding register
register-Follows t sent released delivered seq stream_id new h =
    let unconfirmed : contains t.confirmed seq ≡ false =
      elim (Bool-cases (contains t.confirmed seq)) [
        | inl q ↦ absurd (let old = h.known seq q in cc (old, new))
        | inr q ↦ q
      ] in
    record {
      split =
          ap (λ (l : List Sent). l ++ (seq, stream_id) ∷ []) h.split
          ∙ append_assoc released t.pending ((seq, stream_id) ∷ []);
      done = h.done;
      known = h.known;
      kept = h.kept;
      blocked = register-Blocked t.pending t.confirmed seq stream_id unconfirmed h.blocked;
    }

contains-append :
    (xs ys : List Sent) (n : ℕ)
    → contains (map (λ (s : Sent). s.0) (xs ++ ys)) n
      ≡ (contains (map (λ (s : Sent). s.0) xs) n || contains (map (λ (s : Sent). s.0) ys) n)
unfolding contains
contains-append [] ys n = refl
contains-append (x ∷ xs) ys n = ground (arith, contains-append xs ys n)

-- A confirmation releases exactly the messages up to the first that is not confirmed, and says
-- which id is the newest of them and how many they are.
pub record Confirmed (t : DeliveryTracker) (seq : ℕ) (sent released : List Sent)
    (delivered : List ℕ) : Type 0 where
  pub batch : List Sent
  pub follows : Follows (confirm t seq).tracker sent (released ++ batch) (seq ∷ delivered)
  pub id : (confirm t seq).released ≡ newest_of none batch
  pub count : (confirm t seq).count ≡ length batch

pub confirm-Follows :
    (t : DeliveryTracker) (seq : ℕ) (sent released : List Sent) (delivered : List ℕ)
    → Follows t sent released delivered
    → Confirmed t seq sent released delivered
unfolding confirm
confirm-Follows t seq sent released delivered h =
    let loop = release-Loop t.pending (insert t.confirmed seq) none 0 in
    let added = contains-insert t.confirmed seq in
    let later : (n : ℕ) → contains delivered n ≡ true → contains (seq ∷ delivered) n ≡ true =
      λ n d. unfold contains in ground (arith, d) in
    let known : (n : ℕ)
        → contains (insert t.confirmed seq) n ≡ true
        → contains (seq ∷ delivered) n ≡ true =
      λ n c. unfold contains in ground (arith, c, added n, h.known n) in
    record {
      batch = loop.batch;
      follows = record {
        split =
            h.split
            ∙ ap (λ (l : List Sent). released ++ l) loop.split
            ∙ sym (append_assoc released loop.batch (confirm t seq).tracker.pending);
        done =
            All-append (λ s. contains (seq ∷ delivered) s.0 ≡ true) released loop.batch
              (All-map (λ s. contains delivered s.0 ≡ true)
                (λ s. contains (seq ∷ delivered) s.0 ≡ true) released (λ s d. later s.0 d) h.done)
              (All-map (λ s. contains (insert t.confirmed seq) s.0 ≡ true)
                (λ s. contains (seq ∷ delivered) s.0 ≡ true) loop.batch (λ s c. known s.0 c)
                loop.done);
        known = λ n c. known n (loop.known n c);
        kept = λ n d.
            unfold contains in
            ground
              (arith, d, added n, h.kept n, loop.kept n, contains-append released loop.batch n);
        blocked = loop.blocked;
      };
      id = loop.id;
      count = omega (arith, loop.count);
    }
