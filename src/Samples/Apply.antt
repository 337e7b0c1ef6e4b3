-- ===== src/Samples/Apply.antt =====
-- Samples for the apply scheduler: a job that is being applied with another behind it.
use sbnb.Prelude.{subst, sym, ◌∙◌, String, ◌≡◌, refl, true, false, none, some, [], ◌∷◌, eq_iff}
use sbnb.Prelude.Dict.{lookup}
use sbnb.Json.{null}
use sbnb.ApplyResults.Record.{
  Text, Status, Result, apply, queued, running, superseded, is_request_id, parse_status, parse_kind,
}
use sbnb.ApplyResults.Sanitize.{sanitize_record, sanitize_warnings, sanitize_apply_error}
use sbnb.ApplyResults.Statuses.{status_at}
use sbnb.ApplyResults.{Env, create, write}
use sbnb.Scheduler.{Job, idle, applying, Scheduler, Outcome, returned, answered, submit_locked}
use sbnb.Scheduler.Invariant.{same_id, IsSound, submit}
use sbnb.Scheduler.Soundness.{here, step, Reach-IsSound}
use sbnb.Scheduler.Progress.{work, work_drains, submit_replaces}

abbrev running_id : String
running_id = "00000000-0000-0000-0000-000000000001"

abbrev pending_id : String
pending_id = "00000000-0000-0000-0000-000000000002"

abbrev new_id : String
new_id = "00000000-0000-0000-0000-000000000003"

abbrev job_of : String → Job
job_of id = record { request_id = id; kind = "apply"; state = null; force_retry = null }

abbrev stored_as : String → Status → Result
stored_as id status = record {
  request_id = id;
  kind = apply;
  status = status;
  error = [];
  warnings = [];
  applied = false;
  created_at = 1;
  updated_at = 1;
}

abbrev busy : Scheduler
busy = record {
  running_job = some (job_of running_id);
  pending_job = some (job_of pending_id);
  phase = applying;
  apply_results = record {
    results =
        (running_id, stored_as running_id running) ∷ (pending_id, stored_as pending_id queued) ∷ [];
    files = [];
    terminal_limit = 32;
  };
  project_targets = [];
  runtime_result_errors = [];
  runtime_error_order = [];
}

abbrev clean : Text → Text
clean t = t

abbrev env : Env
env = record { now = 9; writable = true }

abbrev does : Job → Outcome
does job = record { ending = returned true; warnings = []; path_exists = true }

busy-IsSound : IsSound busy
unfolding lookup
busy-IsSound = record {
  consistent = (refl, refl, (refl, refl, tt));
  idle_free = λ q. cc;
  free_idle = λ q. cc;
  pending_behind = λ q. cc;
  pending_queued = λ j q.
      subst (λ id. status_at id busy.apply_results ≡ some queued) (same_id (job_of pending_id) j q)
        refl;
  taken_queued = λ j q t. cc;
  applying_running = λ j q t.
      subst (λ id. status_at id busy.apply_results ≡ some running) (same_id (job_of running_id) j q)
        refl;
  apart = λ j k q p n e. cc (
      (eq_iff running_id pending_id).1
        (same_id (job_of running_id) j q ∙ e ∙ sym (same_id (job_of pending_id) k p)));
}

Reach-IsSound_example : IsSound (submit_locked clean env true false (job_of new_id) busy).0
Reach-IsSound_example =
    Reach-IsSound clean clean busy-IsSound (step here (submit env true false (job_of new_id) busy))

work_drains_example :
    ((work clean clean env does 6 busy).phase ≡ idle)
    × ((work clean clean env does 6 busy).running_job ≡ none)
    × ((work clean clean env does 6 busy).pending_job ≡ none)
work_drains_example = work_drains clean clean env does busy busy-IsSound

submit_replaces_example :
    let after = submit_locked clean env true false (job_of new_id) busy in
    (after.1 ≡ answered true new_id [])
    × (after.0.running_job ≡ some (job_of running_id))
    × (after.0.pending_job ≡ some (job_of new_id))
    × ((p : Job) (u : Status)
        → busy.pending_job ≡ some p
        → status_at p.request_id after.0.apply_results ≡ some u
        → u ≡ superseded)
unfolding create sanitize_record lookup write is_request_id parse_status parse_kind
    sanitize_warnings sanitize_apply_error
submit_replaces_example =
    submit_replaces clean env true (job_of new_id) (job_of running_id) busy refl refl
