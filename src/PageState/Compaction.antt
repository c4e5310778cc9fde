-- ===== src/PageState/Compaction.antt =====
-- processors/page_state.py: what Kafka's compaction of wiki.page-latest may remove, and that the
-- guard read from the compacted records is the same.
--
-- A record may go when a newer record has its key. The removal of a tombstone that has aged out is
-- left out: it makes the guard forget that the page was deleted.
use wikistream_kafka.Prelude.{
  ℕ, ◌≤◌, ◌≡◌, refl, sym, ◌∙◌, inl, inr, String, Option, none, some, List, [], ◌∷◌, ◌++◌, arith,
  string_eq, All, All-In, In,
}
use wikistream_kafka.PageState.{Produced}
use wikistream_kafka.PageState.Guard.{later_time, after, highest}

pub data Compacts : List Produced → List Produced → Type 0 where
  nothing : Compacts [] []
  keep : {xs ys : List Produced} → (r : Produced) → Compacts xs ys → Compacts (r ∷ xs) (r ∷ ys)
  drop :
      {xs ys : List Produced}
      → (r q : Produced) → In q xs
      → q.key ≡ r.key
      → Compacts xs ys
      → Compacts (r ∷ xs) ys

-- `q` is not older than `r` if they are of the same page.
abbrev pub Follows : Produced → Produced → Type 0
Follows r q = r.key ≡ q.key → r.timestamp ≤ q.timestamp

-- The records of each page come in the order of their times.
abbrev pub InOrder : List Produced → Type 0
InOrder [] = Unit
InOrder (r ∷ rest) = All (Follows r) rest × InOrder rest

pub In-Compacts : {xs ys : List Produced} → Compacts xs ys → (r : Produced) → In r ys → In r xs
In-Compacts nothing r m = m
In-Compacts (keep q c) r (inl e) = inl e
In-Compacts (keep q c) r (inr m) = inr (In-Compacts c r m)
In-Compacts (drop q p i e c) r m = inr (In-Compacts c r m)

pub All-Compacts :
    (P : Produced → Type 0) {xs ys : List Produced} → Compacts xs ys → All P xs → All P ys
All-Compacts P nothing h = h
All-Compacts P (keep q c) h = (h.0, All-Compacts P c h.1)
All-Compacts P (drop q p i e c) h = All-Compacts P c h.1

pub InOrder-Compacts : {xs ys : List Produced} → Compacts xs ys → InOrder xs → InOrder ys
InOrder-Compacts nothing h = h
InOrder-Compacts (keep q c) h = (All-Compacts (Follows q) c h.0, InOrder-Compacts c h.1)
InOrder-Compacts (drop q p i e c) h = InOrder-Compacts c h.1

-- A record that a later one of its page is not older than.
after-after :
    (key : String) (o : Option ℕ) (r q : Produced)
    → q.key ≡ r.key
    → r.timestamp ≤ q.timestamp
    → after key (after key o r) q ≡ after key o q
unfolding after later_time
after-after key none r q e h = ground arith
after-after key (some t) r q e h = ground arith

after_swap :
    (key : String) (o : Option ℕ) (r q : Produced)
    → after key (after key o r) q ≡ after key (after key o q) r
unfolding after later_time
after_swap key none r q = ground arith
after_swap key (some t) r q = ground arith

absorbed :
    (key : String) (records : List Produced) (o : Option ℕ) (r q : Produced)
    → In q records
    → q.key ≡ r.key
    → r.timestamp ≤ q.timestamp
    → highest key records (after key o r) ≡ highest key records o
unfolding highest
absorbed key [] o r q m e h = elim m [ ]
absorbed key (p ∷ rest) o r q (inl i) e h = rw (sym i, after-after key o r q e h) refl
absorbed key (p ∷ rest) o r q (inr m) e h =
    rw (after_swap key o r p) (absorbed key rest (after key o p) r q m e h)

-- Compaction does not change the highest time of a page.
pub highest-Compacts :
    {xs ys : List Produced}
    → Compacts xs ys
    → InOrder xs
    → (key : String) (o : Option ℕ) → highest key ys o ≡ highest key xs o
unfolding highest
highest-Compacts nothing h key o = refl
highest-Compacts (keep r c) h key o = highest-Compacts c h.1 key (after key o r)
highest-Compacts {xs = r' ∷ xs} (drop r q i e c) h key o =
    highest-Compacts c h.1 key o
    ∙ sym (absorbed key xs o r q i e (All-In (Follows r) xs q h.0 i (sym e)))

-- A record that is not older than the highest time of its page comes after all others.
pub InOrder-append :
    (records : List Produced) (r : Produced)
    → InOrder records
    → ((q : Produced) → In q records → q.key ≡ r.key → q.timestamp ≤ r.timestamp)
    → InOrder (records ++ r ∷ [])
InOrder-append [] r h last = (tt, tt)
InOrder-append (q ∷ rest) r h last = (
  append_one (Follows q) rest r h.0 (last q (inl refl)),
  InOrder-append rest r h.1 (λ p m. last p (inr m)),
)
  where
    append_one :
        (P : Produced → Type 0) (xs : List Produced) (x : Produced)
        → All P xs
        → P x
        → All P (xs ++ x ∷ [])
    append_one P [] x h p = (p, tt)
    append_one P (y ∷ xs) x h p = (h.0, append_one P xs x h.1 p)
