-- ===== src/Rollout.antt =====
-- dataplane.py: the pull and the start of a Compose project, with their attempts, and the markers of
-- projects that failed. What is done is recorded, the latest first; the clock and the answer of a
-- command may depend on all that was done before.
pub mod Failure
pub mod Attempts
pub mod Project
use sbnb.Prelude.{
  ℕ, zero, suc, ◌-◌, ◌*◌, ◌^◌, ◌+◌, min, String, Bool, true, false, not, ◌&&◌, Option, none, some,
  List, [], ◌∷◌, ◌++◌, leb, ◌==◌, if◌then◌else◌, str_eq, take,
}
use sbnb.ApplyResults.Record.{Text, codes}
use sbnb.Json.{Json}
use sbnb.Devices.{same_text}
use sbnb.Project.{Compose}
use sbnb.ApplyResults.{text_less}
use sbnb.Rollout.Failure.{
  FailureClass, contains, classify_compose_failure, is_final, failure_reason, bounded_output_tail,
}

-- what is written of a failure
pub record FailedRecord : Type 0 where
  pub signature : String
  pub services : List String
  pub phase : Text
  pub reason : Text

-- a marker's file in the directory of a project
pub record Marker : Type 0 where
  pub project : String
  pub suffix : Text

pub data Event : Type 0 where
  wrote_compose : String → Event
  ran : String → List String → ℕ → Bool → Text → Event
  waited : ℕ → Bool → Event
  wrote_marker : Marker → FailedRecord → Bool → Event
  cleared_marker : Marker → Event
  published : String → String → Option Text → Json → Event

pub record World : Type 0 where
  pub clock : List Event → ℕ
  pub is_superseded : List Event → Bool
  pub is_superseded_within : List Event → ℕ → Bool
  pub compose : List Event → String → List String → ℕ → Bool × Text
  pub persists : List Event → Bool
  pub stored : Marker → Option FailedRecord
  pub compose_sig : Compose → Option (List String) → String
  pub lower : Text → Text
  pub redact : Text → Text
  pub split_lines : Text → List Text

-- `(True, output, '')`, `(False, output, reason)`
pub data Outcome : Type 0 where
  succeeded : Text → Outcome
  failed : Text → Text → Outcome

-- `APP_RECONCILE_SUPERSEDED`
abbrev pub superseded_reason : Text
superseded_reason = codes "app project superseded by newer desired state"

-- the loops of `_pull_project_images` and of `_start_project_services`
pub data Phase : Type 0 where
  pull up : Phase

abbrev pub phase_text : Phase → Text
phase_text pull = codes "pull"
phase_text up = codes "up"

abbrev pub timed_out : Phase → Text
timed_out phase = codes "docker compose " ++ phase_text phase ++ codes " timed out"

pub record Job : Type 0 where
  pub phase : Phase
  pub project : String
  pub args : List String
  pub deadline : ℕ

-- the output that is returned when the app is superseded, or its time is over, before an attempt
unfoldable pub output_when_superseded : Phase → Text → Text
output_when_superseded pull last = []
output_when_superseded up last = last

unfoldable pub output_when_late : World → Phase → Text → Text
unfolding bounded_output_tail
output_when_late w pull last = bounded_output_tail w.redact w.split_lines last (timed_out pull)
output_when_late w up last = last

-- the output of a pull says that it was stopped
unfoldable pub is_stopped_pull : Phase → Text → Bool
unfolding contains
is_stopped_pull pull output = contains output superseded_reason
is_stopped_pull up output = false

-- the delay after a number of attempts
abbrev pub delay_after : ℕ → ℕ
delay_after past = min (10 * 2 ^ past) 60

-- `_wait_for_app_supersession`, then the next attempt
pub wait_then :
    World → ℕ → (List Event → List Event × Outcome) → Text → List Event → List Event × Outcome
wait_then w pause next output es =
    let over = w.is_superseded_within es pause in
    if over
    then (waited pause over ∷ es, failed output superseded_reason)
    else next (waited pause over ∷ es)

-- an attempt failed; so many are left, and so many were made before it
pub after_failure :
    World
    → Job
    → ℕ
    → ℕ
    → (Text → Text → List Event → List Event × Outcome)
    → Text
    → List Event
    → List Event × Outcome
unfolding wait_then
after_failure w j left past next output es =
    let class = classify_compose_failure w.lower output in
    let reason = failure_reason class (phase_text j.phase) in
    if is_final class
    then (es, failed output reason)
    else if left == 0
    then (es, failed output reason)
    else if leb j.deadline (w.clock es)
    then (es, failed output (timed_out j.phase))
    else wait_then w (min (delay_after past) (j.deadline - w.clock es)) (next output reason) output
        es

pub on_reply :
    World
    → Job
    → ℕ
    → ℕ
    → (Text → Text → List Event → List Event × Outcome)
    → Bool × Text
    → List Event
    → List Event × Outcome
unfolding after_failure
on_reply w j left past next (true, output) es = (es, succeeded output)
on_reply w j left past next (false, output) es =
    if is_stopped_pull j.phase output
    then (es, failed output superseded_reason)
    else after_failure w j left past next output es

-- one attempt
pub attempt :
    World
    → Job
    → ℕ
    → ℕ
    → (Text → Text → List Event → List Event × Outcome)
    → Text
    → Text
    → List Event
    → List Event × Outcome
unfolding on_reply
attempt w j left past next last reason es =
    let timeout = j.deadline - w.clock es in
    let reply = w.compose es j.project j.args timeout in
    if w.is_superseded es
    then (es, failed (output_when_superseded j.phase last) superseded_reason)
    else if leb j.deadline (w.clock es)
    then (es, failed (output_when_late w j.phase last) (timed_out j.phase))
    else on_reply w j left past next reply (ran j.project j.args timeout reply.0 reply.1 ∷ es)

-- the loop, with the number of attempts that are left
unfoldable pub attempts : World → Job → ℕ → ℕ → Text → Text → List Event → List Event × Outcome
unfolding attempt
attempts w j zero past last reason es = (es, failed last reason)
attempts w j (suc left) past last reason es =
    attempt w j left past (attempts w j left (suc past)) last reason es

-- `sorted(set(names))`
add_name : String → List String → List String
add_name n [] = n ∷ []
add_name n (x ∷ xs) =
    let rest = add_name n xs in
    if str_eq n x then x ∷ xs else if text_less (codes n) (codes x) then n ∷ x ∷ xs else x ∷ rest

unfoldable pub sorted_set : List String → List String
unfolding add_name
sorted_set [] = []
sorted_set (n ∷ names) = add_name n (sorted_set names)

-- names that may be missing
pub sorted_services : Option (List String) → List String
unfolding sorted_set
sorted_services none = []
sorted_services (some names) = sorted_set names

pub pull_services : World → String → ℕ → ℕ → List String → List Event → List Event × Outcome
unfolding attempts
pull_services w project deadline max_retries services es =
    attempts w
      (record {
        phase = pull;
        project = project;
        args = "pull" ∷ "--policy" ∷ "missing" ∷ services;
        deadline = deadline;
      })
      max_retries 0 [] (codes "docker compose pull failed") es

-- `_pull_project_images`; without names, all images are pulled
unfoldable pub pull_project_images :
    World → String → Option (List String) → ℕ → ℕ → List Event → List Event × Outcome
unfolding pull_services sorted_set
pull_project_images w project none deadline max_retries es =
    pull_services w project deadline max_retries [] es
pull_project_images w project (some []) deadline max_retries es = (es, succeeded [])
pull_project_images w project (some (n ∷ names)) deadline max_retries es =
    pull_services w project deadline max_retries (sorted_set (n ∷ names)) es

pub orphan_args : Bool → List String
orphan_args true = "--remove-orphans" ∷ []
orphan_args false = []

-- `_start_project_services`
unfoldable pub start_project_services :
    World → String → Option (List String) → Bool → ℕ → List Event → List Event × Outcome
unfolding attempts sorted_services orphan_args
start_project_services w project services remove_orphans max_retries es =
    attempts w
      (record {
        phase = up;
        project = project;
        args =
            "up"
            ∷ "-d"
            ∷ "--pull"
            ∷ "never"
            ∷ (orphan_args remove_orphans ++ sorted_services services);
        deadline = w.clock es + 180;
      })
      max_retries 0 [] (codes "docker compose up failed") es
