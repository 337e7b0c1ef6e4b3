-- ===== src/Scheduler.antt =====
-- dataplane.py: the apply scheduler of the data plane. One worker thread applies the running job;
-- at most one further job is pending, and a newer submission replaces it. The parts that hold
-- `_job_condition` are single steps; the worker's other parts, which interleave with them, are
-- steps of their own (`Phase`). What an apply does is an `Outcome`, given by the environment.
pub mod Responses
pub mod Invariant
pub mod Worker
pub mod Submit
pub mod Soundness
pub mod Progress
use sbnb.Prelude.{
  ℕ, suc, String, Bool, true, false, not, ◌&&◌, ◌||◌, Option, none, some, List, [], ◌∷◌, ◌++◌, ltb,
  str_eq, if◌then◌else◌, is_some, length, take,
}
use sbnb.Prelude.Dict.{Dict, lookup, insert, remove}
use sbnb.Json.{Json}
use sbnb.Lifecycle.{Target, set_project_targets}
use sbnb.ApplyResults.Record.{Text, Status, Warning, RawWarning, Result, is_terminal, codes}
use sbnb.ApplyResults.Sanitize.{status_name}
use sbnb.ApplyResults.{Store, Env, create, update, get}

-- `{'request_id': …, 'kind': …, 'state': …, 'force_retry': …}`
pub record Job : Type 0 where
  pub request_id : String
  pub kind : String
  pub state : Json
  pub force_retry : Json

-- Where the worker thread stands: there is none, it has taken a job, it applies it, or it has
-- stored the outcome and comes to take the next job.
pub data Phase : Type 0 where
  idle taken applying stored : Phase

pub record Scheduler : Type 0 where
  pub running_job : Option Job
  pub pending_job : Option Job
  pub phase : Phase
  pub apply_results : Store
  pub project_targets : Dict Target
  pub runtime_result_errors : Dict Text
  pub runtime_error_order : List String

-- How an apply ends: the `applied` flag and the warnings, with what the call returned (`true` but
-- for `False`) or the exception's text and the name of its type.
pub data Ending : Type 0 where
  returned : Bool → Ending
  raised : Text → Text → Ending

pub record Outcome : Type 0 where
  pub ending : Ending
  pub warnings : List RawWarning
  pub path_exists : Bool

-- `_result_response`
pub record Response : Type 0 where
  pub found : Bool
  pub request_id : String
  pub status : Option Status
  pub error : Text
  pub warnings : List Warning
  pub applied : Bool

get_or : Option Text → Text → Text
get_or none d = d
get_or (some t) d = t

unfoldable pub result_response : Scheduler → Option Result → Response
unfolding get_or
result_response s none = record {
  found = false;
  request_id = "";
  status = none;
  error = [];
  warnings = [];
  applied = false;
}
result_response s (some r) = record {
  found = true;
  request_id = r.request_id;
  status = some r.status;
  error = get_or (lookup r.request_id s.runtime_result_errors) r.error;
  warnings = r.warnings;
  applied = r.applied;
}

-- `_get_apply_result`
unfoldable pub get_apply_result : String → Scheduler → Response
unfolding result_response
get_apply_result request_id s = result_response s (get request_id s.apply_results)

-- One round of the loop of `_wait_apply_result`; `none` is `wait`.
wait_round : Scheduler → Option Result → Option Response
unfolding result_response
wait_round s none = some (result_response s none)
wait_round s (some r) = if is_terminal r.status then some (result_response s (some r)) else none

unfoldable pub wait_apply_result : String → Scheduler → Option Response
unfolding wait_round
wait_apply_result request_id s = wait_round s (get request_id s.apply_results)

-- `while len(order) > 34: errors.pop(order.pop(0), None)`
trim : List String → Dict Text → List String × Dict Text
trim [] errors = ([], errors)
trim (x ∷ order) errors =
    let rest = trim order (remove x errors) in
    if ltb 34 (length (x ∷ order)) then rest else (x ∷ order, errors)

is_empty : Text → Bool
is_empty [] = true
is_empty (c ∷ t) = false

-- `_remember_runtime_error`
unfoldable pub remember_runtime_error : String → Text → Scheduler → Scheduler
unfolding trim is_empty
remember_runtime_error request_id error s =
    if is_empty error
    then s
    else let (order, errors) =
        trim (s.runtime_error_order ++ request_id ∷ [])
          (insert request_id error s.runtime_result_errors) in
      record s { runtime_result_errors = errors; runtime_error_order = order }

pub data Submission : Type 0 where
  -- still in the loop that waits for the worker to be idle
  waiting : Submission
  -- the answer: `ok`, `request_id` and `error`
  answered : Bool → String → Text → Submission

module _ (clean : Text → Text) where
  pub update_status : Env → String → Status → Text → List RawWarning → Bool → Scheduler → Scheduler
  update_status env request_id status error warnings applied s = record s {
    apply_results =
        (update clean env request_id (status_name status) error warnings applied s.apply_results).0;
  }

  pub supersede : Env → Option Job → Scheduler → Scheduler
  unfolding update_status
  supersede env none s = s
  supersede env (some job) s = update_status env job.request_id Status.superseded [] [] false s

  -- the part of `_submit_apply_job` after the request is persisted, on the running job; `starts`
  -- is whether the thread can be started
  pub enqueue : Env → Bool → Job → Option Job → Scheduler → Scheduler × Submission
  unfolding supersede update_status
  enqueue env true job none s =
      (record s { running_job = some job; phase = taken }, answered true job.request_id [])
  enqueue env false job none s = (
    update_status env job.request_id Status.failed (codes "cannot start apply worker") [] false s,
    answered false job.request_id (codes "cannot start apply worker"),
  )
  enqueue env starts job (some running) s = (
    record (supersede env s.pending_job s) { pending_job = some job },
    answered true job.request_id [],
  )

  pub after_create : Env → Bool → Job → Scheduler → Store × Bool → Scheduler × Submission
  unfolding enqueue
  after_create env starts job s (store, false) =
      (record s { apply_results = store }, answered false "" (codes "cannot persist apply request"))
  after_create env starts job s (store, true) =
      enqueue env starts job s.running_job (record s { apply_results = store })

  -- `_submit_apply_job` under the condition, once it holds it; `request_id` is the fresh uuid
  unfoldable pub submit_locked : Env → Bool → Bool → Job → Scheduler → Scheduler × Submission
  unfolding after_create
  submit_locked env starts wait_for_idle job s =
      if wait_for_idle && (is_some s.running_job || is_some s.pending_job)
      then (s, waiting)
      else after_create env starts job s (create clean env job.request_id job.kind s.apply_results)

  -- The first statement of `_submit_apply_job`; `none` is an exception.
  unfoldable pub publish_targets : Job → Scheduler → Option Scheduler
  publish_targets job s =
      if str_eq job.kind "apply"
      then elim (set_project_targets job.state s.project_targets) [
        | none ↦ none
        | some targets ↦ some (record s { project_targets = targets })
      ]
      else some s

  -- `_apply_job_worker`, up to the call that applies the state
  unfoldable pub begin_job : Env → Job → Scheduler → Scheduler
  unfolding update_status
  begin_job env job s = record (update_status env job.request_id Status.running [] [] false s) {
    phase = applying;
  }

abbrev has_warnings : List RawWarning → Bool
has_warnings [] = false
has_warnings (w ∷ ws) = true

-- status, error to remember, error to persist
pub verdict : (Text → Text) → Ending → List RawWarning → Status × Text × Text
verdict redact (returned false) warnings =
    (Status.failed, codes "desired-state apply failed", codes "desired-state apply failed")
verdict redact (returned true) warnings =
    ((if has_warnings warnings then Status.succeeded_with_warnings else Status.succeeded), [], [])
verdict redact (raised error type_name) warnings = (
  Status.failed,
  take 500 (redact error),
  codes "desired-state apply failed (" ++ type_name ++ codes ")",
)

pub applied_of : Job → Outcome → Bool
applied_of job o = if str_eq job.kind "apply" then true else o.path_exists

unfoldable pub finish_job :
    (Text → Text) → (Text → Text) → Env → Job → Outcome → Scheduler → Scheduler
unfolding verdict applied_of update_status remember_runtime_error
finish_job clean redact env job o s =
    let (status, error, persistent_error) = verdict redact o.ending o.warnings in
    record (update_status clean env job.request_id status persistent_error o.warnings
      (applied_of job o) (remember_runtime_error job.request_id error s)) { phase = stored }

-- the last lines of the worker's loop, under the condition
pub take_next : Option Job → Scheduler → Scheduler
take_next none s = record s { running_job = none; phase = idle }
take_next (some job) s = record s { running_job = some job; pending_job = none; phase = taken }

unfoldable pub next_job : Scheduler → Scheduler
unfolding take_next
next_job s = take_next s.pending_job s
