-- ===== src/Sandbox.antt =====
-- common/sandbox.py: a namespace of its own for a test run, its processes, and waiting.
pub mod Apart
use wikistream_kafka.Prelude.{
  ℕ, suc, ◌+◌, ◌-◌, String, Bool, true, false, not, ◌&&◌, ◌||◌, Option, none, some, List, [], ◌∷◌,
  map, ltb, leb, ◌==◌, contains, filter, if◌then◌else◌, string_eq, nat_eq, append_text,
}
use Prim.Native.Char.{code}
use wikistream_kafka.Dict
use wikistream_kafka.Dict.{Dict, keys}

-- `s.startswith(prefix)`
unfoldable pub starts_with : String → String → Bool
starts_with s (String.[]) = true
starts_with (String.[]) (String.◌∷◌ c prefix) = false
starts_with (String.◌∷◌ d s) (String.◌∷◌ c prefix) = code d == code c && starts_with s prefix

-- The names in Kafka: topics and consumer groups.
pub record KafkaState : Type 0 where
  pub topics : List String
  pub groups : List String

-- Names of a namespace are deleted; a deletion that fails is passed over.
unfoldable pub delete_names : (deletes : String → Bool) → String → List String → List String
delete_names deletes ns names =
    filter (λ n. not (starts_with n (append_text ns ".") && deletes n)) names

unfoldable pub delete_kafka_state : (String → Bool) → String → KafkaState → KafkaState
delete_kafka_state deletes ns k = record {
  topics = delete_names deletes ns k.topics;
  groups = delete_names deletes ns k.groups;
}

-- A process that was started: its exit code once it has ended.
pub record Process : Type 0 where
  pub exit : Option ℕ

pub record Sandbox : Type 0 where
  pub ns : String
  pub database : Option String
  pub env : Dict String String
  pub procs : Dict String Process

-- `Sandbox(prefix)` with the random hexadecimal digits of its namespace
unfoldable pub sandbox : String → String → Bool → Dict String String → Sandbox
sandbox prefix digits database environ =
    let ns = append_text prefix digits in
    let named = Dict.put environ "PIPELINE_NAMESPACE" ns in
    let db = append_text "wikistream_" ns in
    record {
      ns = ns;
      database = if database then some db else none;
      env = if database then Dict.put named "POSTGRES_DB" db else named;
      procs = [];
    }

-- `topic` and `group`
unfoldable pub name_in : Sandbox → String → String
name_in s name = append_text s.ns (append_text "." name)

unfoldable pub start : Sandbox → String → Option String → Sandbox × String
start s script name =
    let tracked : String = elim name [ none ↦ script | some n ↦ if n == "" then script else n ] in
    (record s { procs = Dict.put s.procs tracked (record { exit = none }) }, tracked)

-- SIGKILL, and the exit code that the system gives
unfoldable pub kill : Sandbox → String → ℕ → Sandbox
kill s name code_of_kill = elim (Dict.get s.procs name) [
  | none ↦ s
  | some p ↦ elim p.exit [
    | some c ↦ s
    | none ↦ record s { procs = Dict.put s.procs name (record { exit = some code_of_kill }) }
  ]
]

-- `stop`: SIGTERM to a process that runs, and after the timeout SIGKILL. `graceful` is the code with
-- which it ends in time, if it does.
unfoldable pub stop : Sandbox → String → Option ℕ → ℕ → Sandbox × Option ℕ
stop s name graceful code_of_kill = elim (Dict.get s.procs name) [
  | none ↦ (s, none)
  | some p ↦ elim p.exit [
    | some c ↦ (s, some c)
    | none ↦
        let c : ℕ = elim graceful [ none ↦ code_of_kill | some g ↦ g ] in
        (record s { procs = Dict.put s.procs name (record { exit = some c }) }, some c)
  ]
]

abbrev pub failed : Process → Bool
failed p = elim p.exit [ none ↦ false | some c ↦ not (c == 0) ]

-- The tracked processes that ended with an error, but those to ignore
unfoldable pub crashed : Dict String Process → List String → List String
crashed [] ignore = []
crashed ((name, p) ∷ procs) ignore =
    let rest = crashed procs ignore in
    if not (contains ignore name) && failed p then name ∷ rest else rest

-- What a round of `wait_until` sees: the time since its start, the processes, and the condition,
-- `none` if it raises.
pub record Round : Type 0 where
  pub waited : ℕ
  pub procs : Dict String Process
  pub condition : Option Bool

pub data Waited : Type 0 where
  held : ℕ → Waited
  exited_early : List String → Waited
  timed_out : Waited

-- The rounds are those before the timeout.
unfoldable pub wait_until : List String → List Round → Waited
wait_until ignore [] = timed_out
wait_until ignore (r ∷ rounds) =
    let later = wait_until ignore rounds in
    elim (crashed r.procs ignore) [
      | name ∷ names ↦ exited_early (name ∷ names)
      | [] ↦ elim r.condition [ none ↦ later | some holds ↦ if holds then held r.waited else later ]
    ]

-- `group_caught_up`, over the committed offset and the end of each partition
unfoldable pub group_caught_up : List (Option ℕ × ℕ) → Bool
group_caught_up [] = true
group_caught_up ((none, high) ∷ partitions) =
    let rest = group_caught_up partitions in if ltb 0 high then false else rest
group_caught_up ((some offset, high) ∷ partitions) =
    let rest = group_caught_up partitions in if ltb offset high then false else rest
