-- ===== src/Ingestor/File.antt =====
-- ingestor/checkpoint.py: the checkpoint file, read and written.
use wikistream_kafka.Prelude.{
  ℕ, ◌≡◌, refl, inl, inr, String, Option, none, some, List, [], ◌∷◌, take, if◌then◌else◌, string_eq,
  ◌==◌, Bool-cases,
}
use wikistream_kafka.Prelude.Int.{ℤ, pos}
use wikistream_kafka.Parsing.{
  Value, null, boolean, integer, float, text, array, object, no_fields, field, lookup, get, Library,
}
use wikistream_kafka.Ingestor.{Checkpoint, newest}
use wikistream_kafka.Ingestor.Handle.{optional_text}

-- The directory: the bytes of the file, if it is there, and those of the temporary files, the newest
-- first; `mkstemp` gives each save a name of its own, so that files of killed saves stay.
pub record Directory : Type 0 where
  pub target : Option (List ℕ)
  pub temporaries : List (List ℕ)

-- What `load` keeps: a file can hold any integer.
pub record Loaded : Type 0 where
  pub last_event_id : Option String
  pub events_confirmed : ℤ

abbrev pub fresh : Loaded
fresh = record { last_event_id = none; events_confirmed = pos 0 }

-- `last if isinstance(last, str) and last else None`
unfoldable pub id_of : Value → Option String
id_of (text s) = if s == "" then none else some s
id_of null = none
id_of (boolean b) = none
id_of (integer n) = none
id_of (float s) = none
id_of (array vs) = none
id_of (object fs) = none

-- `count if isinstance(count, int) else 0`; a bool is an int
unfoldable pub count_of : Option Value → ℤ
count_of none = pos 0
count_of (some (integer n)) = n
count_of (some (boolean b)) = if b then pos 1 else pos 0
count_of (some null) = pos 0
count_of (some (float s)) = pos 0
count_of (some (text s)) = pos 0
count_of (some (array vs)) = pos 0
count_of (some (object fs)) = pos 0

unfoldable pub from_value : Value → Loaded
from_value (object fs) = record {
  last_event_id = id_of (get fs "last_event_id");
  events_confirmed = count_of (lookup fs "events_confirmed");
}
from_value null = fresh
from_value (boolean b) = fresh
from_value (integer n) = fresh
from_value (float s) = fresh
from_value (text s) = fresh
from_value (array vs) = fresh

-- A file that is missing, is not UTF-8 or is not JSON counts as none.
unfoldable pub load : Library → Option (List ℕ) → Loaded
load lib none = fresh
load lib (some bytes) = elim (lib.decode bytes) [
  | none ↦ fresh
  | some s ↦ elim (lib.loads s) [ none ↦ fresh | some v ↦ from_value v ]
]

-- the dict that `save` dumps
unfoldable pub payload : Checkpoint → Value
payload c = object (
    field "last_event_id" (optional_text c.last_event_id)
      (field "events_confirmed" (integer (pos c.events_confirmed)) no_fields))

-- How far `save` comes before it ends or the process is killed: the temporary file is created; some
-- of the bytes are in it; all are, and on the disk; it has replaced the target.
pub data Stage : Type 0 where
  before : Stage
  created : Stage
  written : ℕ → Stage
  synced : Stage
  replaced : Stage

unfoldable pub save_to : Directory → List ℕ → Stage → Directory
save_to d bytes before = d
save_to d bytes created = record d { temporaries = [] ∷ d.temporaries }
save_to d bytes (written n) = record d { temporaries = take n bytes ∷ d.temporaries }
save_to d bytes synced = record d { temporaries = bytes ∷ d.temporaries }
save_to d bytes replaced = record d { target = some bytes }

abbrev pub older : List (List ℕ) → List (List ℕ)
older [] = []
older (newest_file ∷ files) = files

-- `tmp.unlink(missing_ok=True)` on an exception: the file of this save
unfoldable pub clean_up : Directory → Stage → Directory
clean_up d before = d
clean_up d created = record d { temporaries = older d.temporaries }
clean_up d (written n) = record d { temporaries = older d.temporaries }
clean_up d synced = record d { temporaries = older d.temporaries }
clean_up d replaced = d

-- What `load` makes of a checkpoint that was saved.
abbrev pub as_loaded : Checkpoint → Loaded
as_loaded c = record {
  last_event_id = newest none c.last_event_id;
  events_confirmed = pos c.events_confirmed;
}

id_of-optional_text : (o : Option String) → id_of (optional_text o) ≡ newest none o
unfolding id_of
id_of-optional_text none = refl
id_of-optional_text (some s) = elim (Bool-cases (s == "")) [ inl q ↦ rw q refl | inr q ↦ rw q refl ]

from_value-payload : (c : Checkpoint) → from_value (payload c) ≡ as_loaded c
unfolding from_value payload lookup get count_of
from_value-payload c = rw (id_of-optional_text c.last_event_id) refl

-- The next start loads from a file that holds what `save` dumps the id and the count that were
-- saved, with an empty id read as none, provided that its bytes decode to a text that json reads as
-- the dict dumped.
pub load-payload :
    (lib : Library) (c : Checkpoint) (bytes : List ℕ) (s : String)
    → lib.decode bytes ≡ some s
    → lib.loads s ≡ some (payload c)
    → load lib (some bytes) ≡ as_loaded c
unfolding load
load-payload lib c bytes s decoded read = rw (load, decoded, read) (from_value-payload c)
