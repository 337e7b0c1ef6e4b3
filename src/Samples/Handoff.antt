-- ===== src/Samples/Handoff.antt =====
-- Concrete runs of the hand-off of dataplane.py.
use sbnb.Prelude.Dict.{insert, lookup}
use sbnb.Migration.Apps.{reconcile_v2_app, prepare_v2_app}
use sbnb.Prelude.{str_eq, any, elem, All, true, false, ◌≡◌, refl, none, some, [], ◌∷◌}
use sbnb.Migration.{returned, nothing, started, not_started, App, State, World}
use sbnb.Migration.Apply.{Request, apply_v2_projects, is_prepared}
use sbnb.Migration.Apply.TwoPhase.{prepared_by, prepared_before_handoff}
use sbnb.Migration.Apply.Finish.{is_clean}
use sbnb.Migration.Apply.Committed.{committed-IsComplete}
use sbnb.Migration.Apps.Brought.{brought_in}

abbrev camera : App
camera = record {
  instance_uuid = "u1";
  project_name = "camera";
  wants_stopped = false;
  wants_running = true;
  primary_service = none;
  images = ("app", some "camera:2") ∷ [];
}

abbrev archive : App
archive = record {
  instance_uuid = "u2";
  project_name = "archive";
  wants_stopped = true;
  wants_running = false;
  primary_service = none;
  images = [];
}

abbrev two_apps : State
two_apps = record {
  apps = camera ∷ archive ∷ [];
  instances = "u1" ∷ "u2" ∷ [];
  system_name = "reefy-system";
}

abbrev plain_request : Request
plain_request = record { failed_restores = []; force_retry = none }

-- The migration is pending and everything succeeds.
abbrev willing_host : World
willing_host = record {
  runs = λ es c. true;
  desired_state_exists = true;
  marker_exists = false;
  legacy_services = ("u1", some "camera:1") ∷ ("u2", none) ∷ ("dns", none) ∷ [];
  legacy_file_exists = λ es. true;
  marker_error = λ es. none;
  removal_error = λ es. none;
  compose_exists = λ es name. true;
  project_entries = λ es. "camera" ∷ "old" ∷ "reefy-system" ∷ [];
  prepare_system = λ es. true;
  prepare_artifacts = λ es a. returned true;
  is_superseded = λ es a. false;
  prepare_project = λ es a forced. returned none;
  start_project = λ es a. returned (started (record { message = nothing; image = none }) []);
  preparation_order = archive ∷ camera ∷ [];
  reconcile_order = camera ∷ archive ∷ [];
}

-- The camera's new project does not start.
abbrev failing_host : World
failing_host = record willing_host { start_project = λ es a. returned (not_started []) }

prepared_before_handoff_example :
    All
      (λ (a : App).
        is_prepared (prepared_by failing_host plain_request).prepared_apps a.instance_uuid ≡ true)
      (archive ∷ camera ∷ [])
unfolding apply_v2_projects prepare_v2_app elem reconcile_v2_app lookup insert any
prepared_before_handoff_example = prepared_before_handoff failing_host two_apps plain_request refl

committed-IsComplete_example :
    (is_clean (apply_v2_projects willing_host two_apps plain_request).0 ≡ true)
    × All
        (λ (a : App). brought_in a (apply_v2_projects willing_host two_apps plain_request).0 ≡ true)
        (camera ∷ archive ∷ [])
unfolding apply_v2_projects prepare_v2_app elem reconcile_v2_app lookup insert any
committed-IsComplete_example =
    committed-IsComplete willing_host two_apps plain_request (str_eq "u2") (refl, (refl, tt))
      (refl, (refl, tt)) refl
