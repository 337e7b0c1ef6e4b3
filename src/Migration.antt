-- ===== src/Migration.antt =====
-- dataplane.py: the hand-off from the legacy Compose project to one project per app: the release of
-- the legacy system services, the commit and the rollback. What is done is recorded, the latest
-- first; the answer of a command may depend on all that was done before it.
pub mod Apps
pub mod Apply
pub mod Quiet
pub mod Fine
pub mod Uncommitted
use sbnb.Prelude.{
  String, Bool, true, false, not, ◌&&◌, Option, none, some, List, [], ◌∷◌, elem, str_eq,
  if◌then◌else◌,
}
use sbnb.Prelude.Dict.{Dict, lookup}

-- The `docker compose` commands. Those of the first line act on the legacy project, `state`.
pub data Command : Type 0 where
  stop_legacy remove_legacy up_legacy down_legacy : Command
  stop_legacy_app start_legacy_app : String → Command
  remove_system start_system apply_system : Command
  stop_app down_project : String → Command

pub data Code : Type 0 where
  invalid_app_project restore_failed app_project_superseded artifact_prepare_failed : Code
  app_project_failed app_stop_failed system_project_failed optional_service_failed : Code
  app_project_exception : String → Code

-- a message: a text, or the tail of a command's output after a text
pub data Message : Type 0 where
  nothing : Message
  said output_tail : String → Message

-- `_running_health`
pub record Running : Type 0 where
  pub message : Message
  pub image : Option String

-- How a call of the environment ends: it raises an exception of this name, or returns.
pub data Attempt {ℓ} (A : Type ℓ) : Type ℓ where
  raised : String → Attempt A
  returned : A → Attempt A

-- `_start_prepared_app_project`: `_superseded` is set, or `(ok, optional_failures)` is returned
pub data Started : Type 0 where
  superseded : Started
  started : Running → List String → Started
  not_started : List String → Started

pub data Event : Type 0 where
  ran : Command → Bool → Event
  prepared_system : Bool → Event
  prepared_project : String → Attempt (Option Code) → Event
  prepared_artifacts : String → Attempt Bool → Event
  started_project : String → Attempt Started → Event
  published : String → String → Message → Option String → Option String → Event
  cleared_signatures cleared_signature wrote_signature : String → Event
  removed_project : String → Event
  committed scheduled_retry reset_retry : Event
  -- an exception that leaves `_apply_v2_projects`
  uncaught : String → Event

pub record App : Type 0 where
  pub instance_uuid : String
  pub project_name : String
  -- `_app_desired_status(app) == 'stopped'`, `== 'running'`
  pub wants_stopped : Bool
  pub wants_running : Bool
  pub primary_service : Option String
  -- the services of the app's Compose project with their images
  pub images : Dict (Option String)

pub record State : Type 0 where
  pub apps : List App
  -- the truthy `instance_uuid`s of `instances`
  pub instances : List String
  pub system_name : String

-- The host, and the orders in which the workers of the two pools complete.
pub record World : Type 0 where
  pub runs : List Event → Command → Bool
  pub desired_state_exists : Bool
  pub marker_exists : Bool
  pub legacy_services : Dict (Option String)
  pub legacy_file_exists : List Event → Bool
  -- the exceptions of a commit's file operations: the marker's, and those of the removals after it
  pub marker_error : List Event → Option String
  pub removal_error : List Event → Option String
  pub compose_exists : List Event → String → Bool
  pub project_entries : List Event → List String
  pub prepare_system : List Event → Bool
  pub prepare_artifacts : List Event → App → Attempt Bool
  pub is_superseded : List Event → App → Bool
  -- none when the images are ready, else the code
  pub prepare_project : List Event → App → Bool → Attempt (Option Code)
  pub start_project : List Event → App → Attempt Started
  pub preparation_order : List App
  pub reconcile_order : List App

-- `_run_compose_command`
unfoldable pub run_compose_command : World → Command → List Event → List Event × Bool
run_compose_command w c es = (ran c (w.runs es c) ∷ es, w.runs es c)

-- what follows a command that succeeds; a failure is the answer
unfoldable pub and_then : List Event × Bool → (List Event → List Event × Bool) → List Event × Bool
and_then (es, true) next = next es
and_then (es, false) next = (es, false)

-- `_v2_migration_pending`
unfoldable pub v2_migration_pending : World → Bool
v2_migration_pending w = w.desired_state_exists && not w.marker_exists

-- `legacy_system_services`
unfoldable pub legacy_system_services : List String → Dict (Option String) → List String
legacy_system_services instances [] = []
legacy_system_services instances ((name, image) ∷ d) =
    let rest = legacy_system_services instances d in
    if elem name instances then rest else name ∷ rest

-- the release of the legacy names: `stop`, then `rm`
pub release_legacy : World → List String → List Event → List Event × Bool
unfolding run_compose_command and_then
release_legacy w [] es = (es, true)
release_legacy w (name ∷ names) es =
    and_then (run_compose_command w stop_legacy es) (run_compose_command w remove_legacy)

pub clear_signatures : State → List Event → List Event × Bool
clear_signatures s es = (cleared_signatures s.system_name ∷ es, true)

-- `_prepare_v2_system_handoff`
unfoldable pub prepare_v2_system_handoff :
    World → State → List String → List Event → List Event × Bool
unfolding run_compose_command and_then release_legacy clear_signatures
prepare_v2_system_handoff w s services es =
    and_then (and_then (run_compose_command w remove_system es) (release_legacy w services))
      (clear_signatures s)

-- the record of a failure of the system project is cleared or written
pub conclude_start : State → List Event × Bool → List Event × Bool
conclude_start s (es, true) = (cleared_signature s.system_name ∷ es, true)
conclude_start s (es, false) = (wrote_signature s.system_name ∷ es, false)

-- `_start_prepared_system_project` with the hand-off as `before_start`
unfoldable pub start_prepared_system_project : World → State → List Event → List Event × Bool
unfolding and_then prepare_v2_system_handoff run_compose_command legacy_system_services
    conclude_start
start_prepared_system_project w s es =
    let names = legacy_system_services s.instances w.legacy_services in
    conclude_start s
      (and_then (prepare_v2_system_handoff w s names es) (run_compose_command w start_system))

-- whether the project of an app is stopped by a rollback
pub is_stopped_by_rollback : World → List Event → String → Bool
is_stopped_by_rollback w es name = not (str_eq name "") && w.compose_exists es name

-- the loop of a rollback over the apps; true while no stop has failed
unfoldable pub stop_projects : World → List App → List Event × Bool → List Event × Bool
unfolding is_stopped_by_rollback run_compose_command
stop_projects w [] (es, clean) = (es, clean)
stop_projects w (a ∷ apps) (es, clean) =
    let (after, ok) = run_compose_command w (stop_app a.project_name) es in
    let stopping = stop_projects w apps (after, clean && ok) in
    let passing = stop_projects w apps (es, clean) in
    if is_stopped_by_rollback w es a.project_name then stopping else passing

pub remove_system_if_present : World → State → List Event × Bool → List Event × Bool
unfolding run_compose_command
remove_system_if_present w s (es, clean) =
    let (after, ok) = run_compose_command w remove_system es in
    if w.compose_exists es s.system_name then (after, clean && ok) else (es, clean)

pub restore_legacy : World → List Event × Bool → List Event × Bool
unfolding run_compose_command
restore_legacy w (es, clean) =
    let (after, ok) = run_compose_command w up_legacy es in (after, ok && clean)

-- `_rollback_v2_migration`
unfoldable pub rollback_v2_migration : World → State → List Event → List Event × Bool
unfolding stop_projects remove_system_if_present restore_legacy
rollback_v2_migration w s es =
    restore_legacy w (remove_system_if_present w s (stop_projects w s.apps (es, true)))

-- the removal of the legacy files, and before it the writing of the marker; each may raise
pub removal_reply : List Event → Option String → List Event × Attempt Bool
removal_reply es none = (es, returned true)
removal_reply es (some name) = (es, raised name)

pub marker_reply : World → List Event → Option String → List Event × Attempt Bool
unfolding removal_reply
marker_reply w es none = removal_reply (committed ∷ es) (w.removal_error (committed ∷ es))
marker_reply w es (some name) = (es, raised name)

pub write_marker : World → List Event → List Event × Attempt Bool
unfolding marker_reply
write_marker w es = marker_reply w es (w.marker_error es)

pub after_down : World → List Event × Bool → List Event × Attempt Bool
unfolding write_marker
after_down w (es, true) = write_marker w es
after_down w (es, false) = (es, returned false)

-- `_commit_v2_migration`
unfoldable pub commit_v2_migration : World → List Event → List Event × Attempt Bool
unfolding after_down run_compose_command
commit_v2_migration w es =
    if w.legacy_file_exists es
    then after_down w (run_compose_command w down_legacy es)
    else write_marker w es

-- a project that is absent from the desired state
pub remove_project : World → String → List Event → List Event
unfolding run_compose_command
remove_project w name es =
    if w.compose_exists es name
    then removed_project name ∷ (run_compose_command w (down_project name) es).0
    else removed_project name ∷ es

pub remove_each : World → List String → List String → List Event → List Event
unfolding remove_project
remove_each w desired [] es = es
remove_each w desired (name ∷ names) es =
    let removing = remove_each w desired names (remove_project w name es) in
    let keeping = remove_each w desired names es in
    if str_eq name "reefy-system" then keeping else if elem name desired then keeping else removing

-- `_remove_absent_v2_projects`
unfoldable pub remove_absent_v2_projects : World → List String → List Event → List Event
unfolding remove_each
remove_absent_v2_projects w desired es = remove_each w desired (w.project_entries es) es
