-- ===== src/Parsing.antt =====
-- common/models.py: from the bytes of a raw Kafka value to a CleanEvent.
--
-- A ParseError is `refused`; any other exception, which the callers do not catch, is `raised`.
pub mod Clean
pub mod Raises
pub mod Valid
use wikistream_kafka.Prelude.{
  ℕ, zero, suc, String, Bool, true, false, not, ◌&&◌, ◌||◌, Option, none, some, List, [], ◌∷◌,
  string_eq, ◌==◌, contains, if◌then◌else◌, append_text,
}
use wikistream_kafka.Prelude.Int.{ℤ, pos, negsuc}
use wikistream_kafka.Models.{CleanEvent}

-- What `json.loads` returns. A float is its text.
mutual
  pub data Value : Type 0 where
    null : Value
    boolean : Bool → Value
    integer : ℤ → Value
    float : String → Value
    text : String → Value
    array : Values → Value
    object : Fields → Value

  pub data Values : Type 0 where
    no_values : Values
    value : Value → Values → Values

  pub data Fields : Type 0 where
    no_fields : Fields
    field : String → Value → Fields → Fields

-- `d.get(name)` of a dict whose keys differ; Python's None is `null`.
unfoldable pub lookup : Fields → String → Option Value
lookup no_fields name = none
lookup (field k v rest) name = let found = lookup rest name in if k == name then some v else found

unfoldable pub get : Fields → String → Value
get fields name = elim (lookup fields name) [ none ↦ null | some v ↦ v ]

-- A time read from text: a ValueError, or an OverflowError.
pub data TimeRead : Type 0 where
  time : String → TimeRead
  value_error : TimeRead
  overflow : TimeRead

-- What the parser asks of Python's library.
pub record Library : Type 0 where
  -- `bytes.decode("utf-8")`, `none` for a UnicodeDecodeError
  pub decode : List ℕ → Option String
  -- `json.loads`, `none` for a JSONDecodeError
  pub loads : String → Option Value
  -- `str` and `bool` of a float, `str` of a list or dict
  pub float_truth : String → Bool
  pub str : Value → String
  pub strip : String → String
  -- `" ".join(title.split())`
  pub single_spaced : String → String
  -- `datetime.fromisoformat(dt.replace("Z", "+00:00")).astimezone(timezone.utc).isoformat()`
  pub utc_of_iso : String → TimeRead
  -- `datetime.fromtimestamp(ts, tz=timezone.utc).isoformat()`, `none` when the year is out of range
  pub utc_of_timestamp : ℤ → Option String

-- The messages of ParseError.
pub data Reason : Type 0 where
  not_utf8 : Reason
  invalid_json : Reason
  not_an_object : Reason
  missing_id : Reason
  empty_id : Reason
  unknown_type : Reason
  missing_wiki : Reason
  missing_title : Reason
  bad_namespace : Reason
  not_an_int : Reason
  no_event_time : Reason

pub data Parsed {ℓ} (A : Type ℓ) : Type ℓ where
  parsed : A → Parsed A
  refused : Reason → Parsed A
  raised : String → Parsed A

-- what follows an expression that may raise
unfoldable pub and_then {ℓ κ} : {A : Type ℓ} {B : Type κ} → Parsed A → (A → Parsed B) → Parsed B
and_then (parsed a) f = f a
and_then (refused r) f = refused r
and_then (raised e) f = raised e

abbrev pub event_types : List String
event_types = "edit" ∷ "new" ∷ "log" ∷ "categorize" ∷ []

abbrev pub nonzero : ℤ → Bool
nonzero (pos zero) = false
nonzero (pos (suc n)) = true
nonzero (negsuc n) = true

-- `bool(v)`
unfoldable pub truth : Library → Value → Bool
truth lib null = false
truth lib (boolean b) = b
truth lib (integer n) = nonzero n
truth lib (float s) = lib.float_truth s
truth lib (text s) = not (s == "")
truth lib (array no_values) = false
truth lib (array (value v vs)) = true
truth lib (object no_fields) = false
truth lib (object (field k v fs)) = true

-- `str(v)`
abbrev pub str_of : Library → Value → String
str_of lib null = "None"
str_of lib (boolean true) = "True"
str_of lib (boolean false) = "False"
str_of lib (integer n) = lib.str (integer n)
str_of lib (float s) = lib.str (float s)
str_of lib (text s) = s
str_of lib (array vs) = lib.str (array vs)
str_of lib (object fs) = lib.str (object fs)

-- `str(v or "")`
abbrev pub str_or_empty : Library → Value → String
str_or_empty lib v = if truth lib v then str_of lib v else ""

unfoldable pub is_canary : Fields → Bool
is_canary raw = elim (get raw "meta") [
  | object meta ↦ elim (get meta "domain") [
    | text s ↦ s == "canary"
    | null ↦ false
    | boolean b ↦ false
    | integer n ↦ false
    | float s ↦ false
    | array vs ↦ false
    | object fs ↦ false
  ]
  | null ↦ false
  | boolean b ↦ false
  | integer n ↦ false
  | float s ↦ false
  | text s ↦ false
  | array vs ↦ false
]

-- `isinstance(event_id, str) and event_id`
unfoldable pub id_from : Value → Parsed String
id_from null = refused empty_id
id_from (boolean b) = refused empty_id
id_from (integer n) = refused empty_id
id_from (float s) = refused empty_id
id_from (text s) = if s == "" then refused empty_id else parsed s
id_from (array vs) = refused empty_id
id_from (object fs) = refused empty_id

-- `raw["meta"]["id"]`: a key that is missing, or a value that has no keys, is a ParseError.
unfoldable pub id_at : Value → Parsed String
id_at null = refused missing_id
id_at (boolean b) = refused missing_id
id_at (integer n) = refused missing_id
id_at (float s) = refused missing_id
id_at (text s) = refused missing_id
id_at (array vs) = refused missing_id
id_at (object meta) = elim (lookup meta "id") [ none ↦ refused missing_id | some v ↦ id_from v ]

unfoldable pub event_id_of : Fields → Parsed String
event_id_of raw = id_at (get raw "meta")

unfoldable pub optional_int : Value → Parsed (Option ℤ)
optional_int null = parsed none
optional_int (boolean b) = refused not_an_int
optional_int (integer n) = parsed (some n)
optional_int (float s) = refused not_an_int
optional_int (text s) = refused not_an_int
optional_int (array vs) = refused not_an_int
optional_int (object fs) = refused not_an_int

unfoldable pub optional_str : Value → Option String
optional_str null = none
optional_str (boolean b) = none
optional_str (integer n) = none
optional_str (float s) = none
optional_str (text s) = if s == "" then none else some s
optional_str (array vs) = none
optional_str (object fs) = none
