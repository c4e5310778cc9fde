-- ===== src/Models.antt =====
-- common/models.py: the cleaned event that the topics carry, and the reasons to refuse one.
use wikistream_kafka.Prelude.{String, Bool, ◌&&◌, Option, none, some, string_eq, ◌==◌, append_text}
use wikistream_kafka.Prelude.Int.{ℤ, ◌-ℤ◌}

pub record CleanEvent : Type 0 where
  pub event_id : String
  pub wiki : String
  pub title : String
  pub type : String
  pub namespace : ℤ
  pub user : String
  pub bot : Bool
  pub minor : Bool
  pub comment : String
  pub event_time : String
  pub rev_old : Option ℤ
  pub rev_new : Option ℤ
  pub length_old : Option ℤ
  pub length_new : Option ℤ
  pub server_name : String
  pub log_type : Option String
  pub log_action : Option String

-- f"{wiki}:{title}"
unfoldable pub key_for : String → String → String
key_for wiki title = append_text wiki (append_text ":" title)

-- the property `page_key`
abbrev pub page_key : CleanEvent → String
page_key e = key_for e.wiki e.title

-- The property `is_revert`, over the search of the compiled pattern.
unfoldable pub is_revert : (String → Bool) → CleanEvent → Bool
is_revert is_revert_comment e = e.type == "edit" && is_revert_comment e.comment

-- the property `size_delta`
unfoldable pub size_delta : CleanEvent → Option ℤ
size_delta e = elim e.length_old [
  | none ↦ none
  | some old ↦ elim e.length_new [ none ↦ none | some new ↦ some (new -ℤ old) ]
]
