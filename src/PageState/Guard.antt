-- ===== src/PageState/Guard.antt =====
-- processors/page_state.py: what the guard holds after reading or writing a list of records.
use wikistream_kafka.Prelude.{
  ℕ, ◌≤◌, ◌≡◌, refl, ◌∙◌, subst, inl, inr, String, Option, none, some, List, [], ◌∷◌, ◌++◌, arith,
  string_eq, ◌==◌, if◌then◌else◌, Bool-cases, All, In, same_refl,
}
use wikistream_kafka.Dict
use wikistream_kafka.Dict.{Dict, get-put}
use wikistream_kafka.PageLatest.{Wire, PageLatest, IsSound}
use wikistream_kafka.PageState.{
  is_newer, remember, time_of_record, Produced, Loaded, partition_eof, record_read, load_loop,
  load_applied, value_of,
}

-- the later of a time that may be missing and a time
unfoldable pub later_time : Option ℕ → ℕ → Option ℕ
later_time o t = if is_newer o t then some t else o

-- the guard's time for a page after one more record
unfoldable pub after : String → Option ℕ → Produced → Option ℕ
after key o r = if r.key == key then later_time o r.timestamp else o

-- The highest time of a page's records, starting from a time.
unfoldable pub highest : String → List Produced → Option ℕ → Option ℕ
highest key [] o = o
highest key (r ∷ rest) o = highest key rest (after key o r)

-- The record says the time of its event.
abbrev pub IsTimed : Wire → Produced → Type 0
IsTimed w r = time_of_record w r.value r.timestamp ≡ r.timestamp

pub get-remember :
    (applied : Dict String ℕ) (key other : String) (t : ℕ)
    → Dict.get (remember applied key t) other
      ≡ (if key == other then later_time (Dict.get applied other) t else Dict.get applied other)
unfolding remember later_time
get-remember applied key other t = elim (Bool-cases (is_newer (Dict.get applied key) t)) [
  | inl q ↦ ground (arith, get-put applied key other t, string_eq.same_iff key other)
  | inr q ↦ ground (arith, string_eq.same_iff key other)
]

-- The polls of a load that brings every record of the partition, and then its end.
unfoldable pub whole : List Produced → List Loaded
whole [] = partition_eof ∷ []
whole (r ∷ rest) = record_read (some r.key) r.value r.timestamp ∷ whole rest

-- The guard after such a load, from what it was.
unfoldable pub load_from : Wire → List Produced → Dict String ℕ → Dict String ℕ
load_from w [] applied = applied
load_from w (r ∷ rest) applied =
    load_from w rest (remember applied r.key (time_of_record w r.value r.timestamp))

unfoldable pub load_all : Wire → List Produced → Dict String ℕ
load_all w records = load_from w records []

load_loop-whole :
    (w : Wire) (records : List Produced) (applied : Dict String ℕ)
    → load_loop w (whole records) applied ≡ some (load_from w records applied)
unfolding load_loop whole load_from
load_loop-whole w [] applied = refl
load_loop-whole w (r ∷ rest) applied =
    load_loop-whole w rest (remember applied r.key (time_of_record w r.value r.timestamp))

pub load_applied-whole :
    (w : Wire) (records : List Produced)
    → load_applied w (whole records) ≡ some (load_all w records)
unfolding load_applied load_all
load_applied-whole w records = load_loop-whole w records []

get-load_from :
    (w : Wire) (records : List Produced) (applied : Dict String ℕ) (key : String)
    → All (IsTimed w) records
    → Dict.get (load_from w records applied) key ≡ highest key records (Dict.get applied key)
unfolding load_from highest after
get-load_from w [] applied key h = refl
get-load_from w (r ∷ rest) applied key h =
    get-load_from w rest (remember applied r.key (time_of_record w r.value r.timestamp)) key h.1
    ∙ rw (h.0, get-remember applied r.key key r.timestamp) refl

-- What a restart rebuilds is the highest time of each page.
pub get-load_all :
    (w : Wire) (records : List Produced) (key : String)
    → All (IsTimed w) records
    → Dict.get (load_all w records) key ≡ highest key records none
unfolding load_all Dict.get
get-load_all w records key h = get-load_from w records [] key h

pub highest-append :
    (key : String) (front back : List Produced) (o : Option ℕ)
    → highest key (front ++ back) o ≡ highest key back (highest key front o)
unfolding highest
highest-append key [] back o = refl
highest-append key (r ∷ front) back o = highest-append key front back (after key o r)

-- A time is at most a time that may be missing, and not missing.
abbrev pub Reaches : ℕ → Option ℕ → Type 0
Reaches t o = (u : ℕ) × (o ≡ some u) × (t ≤ u)

pub after-Reaches :
    (key : String) (o : Option ℕ) (r : Produced) (t : ℕ) → Reaches t o → Reaches t (after key o r)
unfolding after later_time
after-Reaches key o r t (u, q, h) = elim (Bool-cases (r.key == key)) [
  | inl e ↦ elim (Bool-cases (is_newer (some u) r.timestamp)) [
    | inl n ↦ (r.timestamp, ground arith, ground arith)
    | inr n ↦ (u, ground arith, h)
  ]
  | inr e ↦ (u, ground arith, h)
]

pub highest-Reaches :
    (key : String) (records : List Produced) (o : Option ℕ) (t : ℕ)
    → Reaches t o
    → Reaches t (highest key records o)
unfolding highest
highest-Reaches key [] o t h = h
highest-Reaches key (r ∷ rest) o t h =
    highest-Reaches key rest (after key o r) t (after-Reaches key o r t h)

later_time-Reaches : (o : Option ℕ) (t : ℕ) → Reaches t (later_time o t)
unfolding later_time
later_time-Reaches none t = (t, refl, omega arith)
later_time-Reaches (some u) t = elim (Bool-cases (is_newer (some u) t)) [
  | inl n ↦ (t, ground arith, omega arith)
  | inr n ↦ (u, ground arith, ground arith)
]

-- Every record's time is at most the highest time of its page.
pub In-Reaches :
    (r : Produced) (records : List Produced) (o : Option ℕ)
    → In r records
    → Reaches r.timestamp (highest r.key records o)
unfolding highest after
In-Reaches r [] o m = elim m [ ]
In-Reaches r (q ∷ rest) o (inl e) = highest-Reaches r.key rest (after r.key o q) r.timestamp (
    subst (λ (x : Produced). Reaches r.timestamp (after r.key o x)) e
      (rw (same_refl r.key) (later_time-Reaches o r.timestamp)))
In-Reaches r (q ∷ rest) o (inr m) = In-Reaches r rest (after r.key o q) m

-- The records that `handle` produces say the time of their event.
pub value_of-IsTimed :
    (w : Wire)
    → IsSound w
    → (latest : Option PageLatest) (t : ℕ)
    → ((r : PageLatest) → latest ≡ some r → w.event_ms r.event_time ≡ some t)
    → time_of_record w (value_of w latest) t ≡ t
unfolding time_of_record
value_of-IsTimed w sound none t h = refl
value_of-IsTimed w sound (some r) t h = let (back, q, e) = sound r in rw (q, e, h r refl) refl
