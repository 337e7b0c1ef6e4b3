-- ===== src/Samples/Pulls.antt =====
-- Concrete runs of the attempts of dataplane.py, and of projects that failed.
use sbnb.Rollout.Failure.{classify_compose_failure}
use sbnb.Prelude.{any, ◌*◌, ◌≤◌, true, false, refl, none, [], ◌∷◌, Each, length, ltb}
use sbnb.ApplyResults.Record.{codes}
use sbnb.Json.{null}
use sbnb.Project.{Compose, Depends}
use sbnb.Rollout.{start_project_services, is_stopped_pull, pull_project_images, World}
use sbnb.Rollout.Attempts.{Fits, commands, pull_log, start_log, attempts_fit}
use sbnb.Rollout.Project.{
  read_failed_sig_record, matching_failed_record, Request, apply_project_compose,
  start_prepared_system_project,
}
use sbnb.Rollout.Project.Sticky.{IsRefused, failed_apply_sticks}
use sbnb.Rollout.Project.HeldBack.{IsHeldBack, system_context, failed_start-IsHeldBack}

-- The network is back after the third command or wait.
abbrev flaky : World
flaky = record {
  clock = λ es. 7 * length es;
  is_superseded = λ es. false;
  is_superseded_within = λ es pause. false;
  compose = λ es project args timeout. (ltb 3 (length es), codes "timeout");
  persists = λ es. true;
  stored = λ m. none;
  compose_sig = λ c services. "signature";
  lower = λ t. t;
  redact = λ t. t;
  split_lines = λ t. t ∷ [];
}

abbrev broken : World
broken = record flaky { compose = λ es project args timeout. (false, codes "manifest unknown") }

attempts_fit_example :
    (Each (Fits flaky 100) (pull_log flaky "camera" none 100 5)
      × (commands (pull_log flaky "camera" none 100 5) ≤ 5))
    × (Each (Fits flaky 180) (start_log flaky "camera" none true 5)
        × (commands (start_log flaky "camera" none true 5) ≤ 5))
attempts_fit_example = attempts_fit flaky "camera" none true 100 5

abbrev camera : Compose
camera = record {
  services = ("app", record { labels = []; depends_on = Depends.absent; body = null }) ∷ [];
  body = null;
}

abbrev camera_request : Request
camera_request = record {
  project = "camera";
  compose = camera;
  instance_uuid = "u1";
  primary_service = "app";
  services = none;
  remove_orphans = true;
  failure_suffix = [];
  max_retries = 5;
}

failed_apply_sticks_example :
    IsRefused broken camera_request (apply_project_compose broken camera_request []).0
unfolding apply_project_compose matching_failed_record read_failed_sig_record pull_project_images
    is_stopped_pull classify_compose_failure any
failed_apply_sticks_example = failed_apply_sticks broken camera_request [] (λ fs. refl) refl

failed_start-IsHeldBack_example :
    IsHeldBack broken "reefy-system" camera
      (start_prepared_system_project broken "reefy-system"
        (system_context broken "reefy-system" camera)
        (λ es. (es, true))
        []).0
unfolding start_prepared_system_project start_project_services is_stopped_pull
    classify_compose_failure any
failed_start-IsHeldBack_example =
    failed_start-IsHeldBack broken "reefy-system" camera (λ es. (es, true)) [] (λ fs. refl) refl
