-- ===== src/Migration/Apps.antt =====
-- dataplane.py: `_prepare_v2_app` and `_reconcile_v2_app`, and the health that a migration publishes.
-- The pull and the start of an app's project are given by the world.
pub mod Quiet
pub mod Fine
pub mod Wanted
pub mod Brought
use sbnb.Prelude.{
  String, Bool, true, false, ◌&&◌, Option, none, some, List, [], ◌∷◌, str_eq, if◌then◌else◌,
}
use sbnb.Prelude.Dict.{Dict, lookup}
use sbnb.Migration.{
  wrote_signature, stop_legacy_app, start_legacy_app, stop_app, Code, invalid_app_project,
  restore_failed, app_project_superseded, artifact_prepare_failed, app_project_failed,
  app_stop_failed, app_project_exception, Message, nothing, said, output_tail, Running, Attempt,
  raised, returned, Started, superseded, started, not_started, Event, prepared_project,
  prepared_artifacts, started_project, published, cleared_signatures, App, World,
  run_compose_command,
}

-- what is kept of a prepared app
pub record Prepared : Type 0 where
  pub is_stopped : Bool
  pub running_health : Option Running

-- The result of a worker of the first pool. An exception is caught where the result is read.
pub data Preparation : Type 0 where
  refused : Code → Preparation
  ready : Prepared → Preparation

abbrev pub fresh : Bool → Prepared
fresh b = record { is_stopped = b; running_health = none }

pub project_reply : World → App → Attempt (Option Code) → List Event → List Event × Preparation
project_reply w a (raised name) es = (es, refused (app_project_exception name))
project_reply w a (returned (some code)) es = (es, refused code)
project_reply w a (returned none) es = (es, ready (fresh false))

pub prepare_project_of : World → App → Bool → List Event → List Event × Preparation
unfolding project_reply
prepare_project_of w a forced es =
    let reply = w.prepare_project es a forced in
    project_reply w a reply (prepared_project a.project_name reply ∷ es)

pub artifact_reply : World → App → Bool → Attempt Bool → List Event → List Event × Preparation
unfolding prepare_project_of
artifact_reply w a forced (raised name) es = (es, refused (app_project_exception name))
artifact_reply w a forced (returned true) es = prepare_project_of w a forced es
artifact_reply w a forced (returned false) es =
    if w.is_superseded es a then (es, refused app_project_superseded) else (
      published a.instance_uuid "failed" (said "artifact prepare failed") none (some "artifact")
          ∷ es,
      refused artifact_prepare_failed,
    )

-- `_prepare_v2_app`
unfoldable pub prepare_v2_app : World → App → Bool → Bool → List Event → List Event × Preparation
unfolding artifact_reply
prepare_v2_app w a restore_has_failed forced es =
    let reply = w.prepare_artifacts es a in
    if str_eq a.instance_uuid ""
    then (es, refused invalid_app_project)
    else if str_eq a.project_name ""
    then (es, refused invalid_app_project)
    else if restore_has_failed
    then (
      published a.instance_uuid "failed" (said "restore failed") none none ∷ es,
      refused restore_failed,
    )
    else if a.wants_stopped
    then (es, ready (fresh true))
    else artifact_reply w a forced reply (prepared_artifacts a.instance_uuid reply ∷ es)

-- The result of a worker of the second pool, and what the prepared app holds after it.
pub data Outcome : Type 0 where
  failed : Code → List String → Outcome
  applied : Prepared → List String → Outcome

pub stop_failed : App → String → Option String → List Event → List Event × Outcome
stop_failed a text phase es = (
  published a.instance_uuid "failed" (output_tail text) none phase ∷ es,
  failed app_stop_failed [],
)

-- the app's own project is stopped
pub stop_reply : App → List Event × Bool → List Event × Outcome
unfolding stop_failed
stop_reply a (es, true) = (
  published a.instance_uuid "stopped" nothing none none ∷ cleared_signatures a.project_name ∷ es,
  applied (fresh true) [],
)
stop_reply a (es, false) = stop_failed a "app stop failed" (some "stop") es

pub stop_project : World → App → List Event → List Event × Outcome
unfolding run_compose_command stop_reply
stop_project w a es = stop_reply a (run_compose_command w (stop_app a.project_name) es)

-- A legacy app that runs and cannot be stopped is also recorded as a failure of its project.
pub legacy_stop_failed : App → Option String → List Event → List Event × Outcome
unfolding stop_failed
legacy_stop_failed a none es =
    stop_failed a "legacy app stop failed" none (wrote_signature a.project_name ∷ es)
legacy_stop_failed a (some phase) es = stop_failed a "legacy app stop failed" (some phase) es

-- the legacy app is stopped first while the migration runs
pub stop_legacy_reply :
    App
    → Option String
    → (List Event → List Event × Outcome)
    → List Event × Bool
    → List Event × Outcome
unfolding legacy_stop_failed
stop_legacy_reply a phase next (es, true) = next es
stop_legacy_reply a phase next (es, false) = legacy_stop_failed a phase es

pub stop_legacy_first :
    World
    → App
    → Bool
    → Option String
    → (List Event → List Event × Outcome)
    → List Event
    → List Event × Outcome
unfolding run_compose_command stop_legacy_reply
stop_legacy_first w a true phase next es =
    stop_legacy_reply a phase next (run_compose_command w (stop_legacy_app a.instance_uuid) es)
stop_legacy_first w a false phase next es = next es

-- a project that did not start, with the legacy app put back
pub start_again : World → App → Bool → List String → List Event → List Event × Outcome
unfolding run_compose_command
start_again w a migration failures es =
    if migration
    then (
      (run_compose_command w (start_legacy_app a.instance_uuid) es).0,
      failed app_project_failed failures,
    )
    else (es, failed app_project_failed failures)

pub start_reply : World → App → Bool → Attempt Started → List Event → List Event × Outcome
unfolding start_again
start_reply w a migration (raised name) es = (es, failed (app_project_exception name) [])
start_reply w a migration (returned superseded) es = (es, failed app_project_superseded [])
start_reply w a migration (returned (not_started failures)) es =
    start_again w a migration failures es
start_reply w a migration (returned (started health failures)) es = (
  if migration
      then es
      else published a.instance_uuid "running" health.message health.image none ∷ es,
  applied (record { is_stopped = false; running_health = some health }) failures,
)

pub start_project_of : World → App → Bool → List Event → List Event × Outcome
unfolding start_reply
start_project_of w a migration es =
    let reply = w.start_project es a in
    start_reply w a migration reply (started_project a.project_name reply ∷ es)

-- from the lock of the project on
pub apply_prepared : World → App → Bool → Prepared → List Event → List Event × Outcome
unfolding stop_legacy_first stop_project start_project_of
apply_prepared w a migration p es =
    let stopping = stop_legacy_first w a migration (some "stop") (stop_project w a) es in
    let starting = stop_legacy_first w a migration none (start_project_of w a migration) es in
    if p.is_stopped then stopping else starting

pub apply_preparation : World → App → Bool → List Event × Preparation → List Event × Outcome
unfolding apply_prepared
apply_preparation w a migration (es, refused code) = (es, failed code [])
apply_preparation w a migration (es, ready p) = apply_prepared w a migration p es

-- `_reconcile_v2_app`
unfoldable pub reconcile_v2_app :
    World → App → Bool → Bool → Option Prepared → List Event → List Event × Outcome
unfolding apply_preparation prepare_v2_app apply_prepared
reconcile_v2_app w a migration restore_has_failed none es =
    apply_preparation w a migration (prepare_v2_app w a restore_has_failed false es)
reconcile_v2_app w a migration restore_has_failed (some p) es = apply_prepared w a migration p es

-- the event of an app that the legacy project runs
pub legacy_running : App → Option (Option String) → List Event → List Event
legacy_running a none es = es
legacy_running a (some image) es = published a.instance_uuid "running" nothing image none ∷ es

-- `_publish_migration_legacy_running`, over the apps
unfoldable pub publish_migration_legacy_running :
    Dict (Option String) → (String → Bool) → List App → List Event → List Event
unfolding legacy_running
publish_migration_legacy_running services wanted [] es = es
publish_migration_legacy_running services wanted (a ∷ apps) es =
    let here = legacy_running a (lookup a.instance_uuid services) es in
    let publishing = publish_migration_legacy_running services wanted apps here in
    let passing = publish_migration_legacy_running services wanted apps es in
    if wanted a.instance_uuid && a.wants_running then publishing else passing

-- the image of the app's primary service
pub image_of : Option (Option String) → Option String
image_of none = none
image_of (some image) = image

pub primary_name : Option String → String
primary_name none = "app"
primary_name (some name) = if str_eq name "" then "app" else name

pub primary_image : App → Option String
unfolding image_of primary_name
primary_image a = image_of (lookup (primary_name a.primary_service) a.images)

-- `terminal.get('message')`, and the image with its fallback
pub terminal_message : Option Running → Message
terminal_message none = nothing
terminal_message (some h) = h.message

pub image_or : Option String → Option String → Option String
image_or none other = other
image_or (some image) other = some image

pub terminal_image : App → Option Running → Option String
unfolding primary_image image_or
terminal_image a none = primary_image a
terminal_image a (some h) = image_or h.image (primary_image a)

pub v2_running : App → Option Prepared → List Event → List Event
unfolding terminal_message terminal_image
v2_running a none es = es
v2_running a (some p) es =
    published a.instance_uuid "running" (terminal_message p.running_health)
      (terminal_image a p.running_health) none
    ∷ es

-- `_publish_migration_v2_running`, over the apps
unfoldable pub publish_migration_v2_running : Dict Prepared → List App → List Event → List Event
unfolding v2_running
publish_migration_v2_running prepared [] es = es
publish_migration_v2_running prepared (a ∷ apps) es =
    let publishing =
      publish_migration_v2_running prepared apps
        (v2_running a (lookup a.instance_uuid prepared) es) in
    let passing = publish_migration_v2_running prepared apps es in
    if a.wants_running then publishing else passing
