-- ===== src/Migration/Apply.antt =====
-- dataplane.py: `_apply_v2_projects`. An exception that leaves it is its last event. The workers of a pool are taken in the order in which they
-- complete.
pub mod Quiet
pub mod Settled
pub mod TwoPhase
pub mod Succeeded
pub mod Finish
pub mod Committed
use sbnb.Prelude.{
  String, Bool, true, false, not, ◌&&◌, Option, none, some, List, [], ◌∷◌, ◌++◌, str_eq, elem, any,
  if◌then◌else◌, is_some,
}
use sbnb.Prelude.Dict.{Dict, lookup, insert}
use sbnb.Migration.{
  uncaught, Attempt, raised, returned, apply_system, Code, app_project_superseded,
  artifact_prepare_failed, system_project_failed, optional_service_failed, Event, prepared_system,
  scheduled_retry, reset_retry, App, State, World, run_compose_command, v2_migration_pending,
  start_prepared_system_project, rollback_v2_migration, commit_v2_migration,
  remove_absent_v2_projects,
}
use sbnb.Migration.Apps.{
  Prepared, Preparation, refused, ready, prepare_v2_app, Outcome, failed, applied, reconcile_v2_app,
  publish_migration_legacy_running, publish_migration_v2_running,
}

pub record Warning : Type 0 where
  pub code : Code
  pub instance_uuid : String
  pub volume : String

-- The variables of the function while it goes through the workers.
pub record Progress : Type 0 where
  pub events : List Event
  pub warnings : List Warning
  pub prepared_apps : Dict Prepared
  pub failed_app_ids : List String
  pub migration_failed : Bool

-- the arguments beside the state
pub record Request : Type 0 where
  pub failed_restores : List String
  -- the `project_name` of `force_retry`
  pub force_retry : Option String

abbrev pub warning : Code → String → String → Warning
warning code uuid volume = record { code = code; instance_uuid = uuid; volume = volume }

abbrev pub system_warning : Warning
system_warning = warning system_project_failed "" ""

abbrev pub is_superseded_code : Code → Bool
is_superseded_code app_project_superseded = true
is_superseded_code _ = false

abbrev pub is_artifact_code : Code → Bool
is_artifact_code artifact_prepare_failed = true
is_artifact_code _ = false

-- the end of every path: a retry of the artifacts is scheduled or reset
pub schedule_or_reset : List Warning → List Event → List Event × List Warning
schedule_or_reset warnings es =
    if any (λ (x : Warning). is_artifact_code x.code) warnings
    then (scheduled_retry ∷ es, warnings)
    else (reset_retry ∷ es, warnings)

-- a failure of an app, which is no warning when newer state supersedes the app
pub note_failure : App → Code → Progress → Progress
note_failure a code pr =
    if is_superseded_code code then record pr { migration_failed = true } else record pr {
      migration_failed = true;
      failed_app_ids = a.instance_uuid ∷ pr.failed_app_ids;
      warnings = pr.warnings ++ warning code a.instance_uuid "" ∷ [];
    }

pub collect_preparation : App → List Event × Preparation → Progress → Progress
unfolding note_failure
collect_preparation a (es, ready p) pr = record pr {
  events = es;
  prepared_apps = insert a.instance_uuid p pr.prepared_apps;
}
collect_preparation a (es, refused code) pr = note_failure a code (record pr { events = es })

pub is_forced : Option String → App → Bool
is_forced none a = false
is_forced (some name) a = str_eq name a.project_name

-- the first pool
unfoldable pub prepare_each : World → Request → List App → Progress → Progress
unfolding collect_preparation is_forced
prepare_each w q [] pr = pr
prepare_each w q (a ∷ apps) pr = prepare_each w q apps (
    collect_preparation a
      (prepare_v2_app w a (elem a.instance_uuid q.failed_restores) (is_forced q.force_retry a)
        pr.events)
      pr)

pub optional_warnings : App → List String → List Warning
optional_warnings a [] = []
optional_warnings a (name ∷ names) =
    warning optional_service_failed a.instance_uuid name ∷ optional_warnings a names

-- The prepared app that a worker was given is the one whose health it sets.
pub keep_health : App → Option Prepared → Prepared → Dict Prepared → Dict Prepared
keep_health a none p d = d
keep_health a (some _) p d = insert a.instance_uuid p d

pub add_optional : App → List String → Progress → Progress
unfolding optional_warnings
add_optional a failures pr = record pr { warnings = pr.warnings ++ optional_warnings a failures }

-- Without a migration, `migration_failed` is not read: it is not kept for a superseded app.
pub collect_failure : App → Bool → Code → List String → Progress → Progress
unfolding note_failure add_optional
collect_failure a migration code failures pr =
    if is_superseded_code code
    then (if migration then note_failure a code pr else pr)
    else add_optional a failures (note_failure a code pr)

pub collect_outcome : App → Bool → Option Prepared → List Event × Outcome → Progress → Progress
unfolding collect_failure add_optional keep_health
collect_outcome a migration given (es, failed code failures) pr =
    collect_failure a migration code failures (record pr { events = es })
collect_outcome a migration given (es, applied p failures) pr =
    add_optional a failures
      (record pr { events = es; prepared_apps = keep_health a given p pr.prepared_apps })

-- the second pool
unfoldable pub reconcile_each : World → Request → Bool → List App → Progress → Progress
unfolding collect_outcome
reconcile_each w q migration [] pr = pr
reconcile_each w q migration (a ∷ apps) pr =
    let given = lookup a.instance_uuid pr.prepared_apps in
    reconcile_each w q migration apps (
      collect_outcome a migration given
        (reconcile_v2_app w a migration (elem a.instance_uuid q.failed_restores) given pr.events)
        pr)

-- the names that the desired state keeps
pub desired_projects : List App → List String
desired_projects [] = []
desired_projects (a ∷ apps) =
    let rest = desired_projects apps in
    if str_eq a.project_name "" then rest else a.project_name ∷ rest

abbrev pub is_prepared : Dict Prepared → String → Bool
is_prepared d uuid = is_some (lookup uuid d)

-- the health of the apps that a rollback puts back, when nothing of it failed
pub publish_restored : World → State → (String → Bool) → List Event × Bool → List Event
unfolding publish_migration_legacy_running
publish_restored w s wanted (es, true) =
    publish_migration_legacy_running w.legacy_services wanted s.apps es
publish_restored w s wanted (es, false) = es

pub roll_back : World → State → (String → Bool) → List Event → List Event
unfolding rollback_v2_migration publish_restored
roll_back w s wanted es = publish_restored w s wanted (rollback_v2_migration w s es)

pub commit_reply : World → State → Progress → List Event × Attempt Bool → List Event × List Warning
unfolding publish_migration_v2_running roll_back schedule_or_reset
commit_reply w s pr (es, returned true) =
    schedule_or_reset pr.warnings (publish_migration_v2_running pr.prepared_apps s.apps es)
commit_reply w s pr (es, returned false) =
    schedule_or_reset (pr.warnings ++ system_warning ∷ [])
      (roll_back w s (is_prepared pr.prepared_apps) es)
commit_reply w s pr (es, raised name) = (uncaught name ∷ es, [])

-- the end of a migration
pub finish_migration : World → State → Progress → List Event × List Warning
unfolding commit_reply commit_v2_migration
finish_migration w s pr =
    if pr.migration_failed
    then schedule_or_reset pr.warnings (
        roll_back w s (λ u. is_prepared pr.prepared_apps u && not (elem u pr.failed_app_ids))
          pr.events)
    else commit_reply w s pr (commit_v2_migration w pr.events)

-- the projects that are absent are removed, then the second pool runs
pub reconcile_all : World → State → Request → Bool → Progress → Progress
unfolding remove_absent_v2_projects desired_projects reconcile_each
reconcile_all w s q migration pr =
    reconcile_each w q migration w.reconcile_order
      (record pr { events = remove_absent_v2_projects w (desired_projects s.apps) pr.events })

pub start_system_reply :
    World → State → Request → Progress → List Event × Bool → List Event × List Warning
unfolding finish_migration reconcile_all roll_back
start_system_reply w s q pr (es, true) =
    finish_migration w s (reconcile_all w s q true (record pr { events = es }))
start_system_reply w s q pr (es, false) = (
  reset_retry ∷ roll_back w s (is_prepared pr.prepared_apps) es,
  pr.warnings ++ system_warning ∷ [],
)

-- after the first pool
pub after_preparation : World → State → Request → Progress → List Event × List Warning
unfolding start_system_reply start_prepared_system_project schedule_or_reset
    publish_migration_legacy_running
after_preparation w s q pr =
    if pr.migration_failed
    then schedule_or_reset pr.warnings (
        publish_migration_legacy_running w.legacy_services (is_prepared pr.prepared_apps) s.apps
          pr.events)
    else start_system_reply w s q pr (start_prepared_system_project w s pr.events)

abbrev pub begin : List Event → List Warning → Progress
begin es warnings = record {
  events = es;
  warnings = warnings;
  prepared_apps = [];
  failed_app_ids = [];
  migration_failed = false;
}

-- the whole hand-off
pub migrate : World → State → Request → List Event × List Warning
unfolding after_preparation prepare_each
migrate w s q =
    if w.prepare_system []
    then after_preparation w s q
        (prepare_each w q w.preparation_order (begin (prepared_system true ∷ []) []))
    else (reset_retry ∷ prepared_system false ∷ [], system_warning ∷ [])

-- without a migration: the system project, then the apps, whatever becomes of each
pub reconcile_system : World → State → Request → List Event × Bool → List Event × List Warning
unfolding reconcile_all schedule_or_reset
reconcile_system w s q (es, ok) =
    let pr = reconcile_all w s q false (begin es (if ok then [] else system_warning ∷ [])) in
    schedule_or_reset pr.warnings pr.events

-- `_apply_v2_projects`
unfoldable pub apply_v2_projects : World → State → Request → List Event × List Warning
unfolding migrate reconcile_system v2_migration_pending run_compose_command
apply_v2_projects w s q =
    if v2_migration_pending w
    then migrate w s q
    else reconcile_system w s q (run_compose_command w apply_system [])
