-- ===== src/Migration/Apps/Quiet.antt =====
-- dataplane.py: the workers of the apps, where they leave the legacy project alone.
use sbnb.Prelude.{
  inr, inl, Bool-cases, String, Bool, true, false, ◌≡◌, refl, ◌∙◌, Option, none, some, List, [],
  ◌∷◌, arith,
}
use sbnb.Prelude.Dict.{Dict, lookup}
use sbnb.Migration.{
  stop_legacy_app, start_legacy_app, said, stop_app, published, Code, Attempt, raised, returned,
  Started, superseded, started, not_started, Event, prepared_artifacts, App, World,
  run_compose_command,
}
use sbnb.Migration.Quiet.{quiet-ran, quiet_migrating, Skips}
use sbnb.Migration.Apps.{
  legacy_stop_failed, stop_reply, stop_legacy_reply, Outcome, Prepared, Preparation, refused, ready,
  project_reply, prepare_project_of, artifact_reply, prepare_v2_app, stop_project, stop_failed,
  stop_legacy_first, start_again, start_reply, start_project_of, apply_prepared, apply_preparation,
  reconcile_v2_app, legacy_running, publish_migration_legacy_running, v2_running,
  publish_migration_v2_running,
}

module _ (migration : Bool) (m : List Event → Bool) (skips : Skips migration m) where
  module _ (w : World) where
    quiet-project_reply :
        (a : App) (r : Attempt (Option Code)) (es : List Event)
        → m (project_reply w a r es).0 ≡ m es
    unfolding project_reply
    quiet-project_reply a (raised name) es = refl
    quiet-project_reply a (returned none) es = refl
    quiet-project_reply a (returned (some c)) es = refl

    quiet-artifact_reply :
        (a : App) (f : Bool) (r : Attempt Bool) (es : List Event)
        → m (artifact_reply w a f r es).0 ≡ m es
    unfolding artifact_reply prepare_project_of
    quiet-artifact_reply a f (raised name) es = refl
    quiet-artifact_reply a f (returned true) es = quiet-project_reply a _ _ ∙ skips _ es refl
    quiet-artifact_reply a f (returned false) es = ground (
      arith,
      skips
          (published a.instance_uuid "failed" (said "artifact prepare failed") none
            (some "artifact"))
          es refl,
    )

    pub quiet-prepare_v2_app :
        (a : App) (r f : Bool) (es : List Event) → m (prepare_v2_app w a r f es).0 ≡ m es
    unfolding prepare_v2_app
    quiet-prepare_v2_app a r f es = ground (
      arith,
      skips (published a.instance_uuid "failed" (said "restore failed") none none) es refl,
      skips (prepared_artifacts a.instance_uuid (w.prepare_artifacts es a)) es refl,
      quiet-artifact_reply a f (w.prepare_artifacts es a)
          (prepared_artifacts a.instance_uuid (w.prepare_artifacts es a) ∷ es),
    )

    quiet-start_again :
        (a : App) (fs : List String) (es : List Event)
        → m (start_again w a migration fs es).0 ≡ m es
    unfolding start_again run_compose_command
    quiet-start_again a fs es = elim (Bool-cases migration) [
      | inl e ↦ rw e (
          skips _ es (
            quiet_migrating migration (start_legacy_app a.instance_uuid)
              (w.runs es (start_legacy_app a.instance_uuid)) e))
      | inr e ↦ rw e refl
    ]

    quiet-start_reply :
        (a : App) (r : Attempt Started) (es : List Event)
        → m (start_reply w a migration r es).0 ≡ m es
    unfolding start_reply
    quiet-start_reply a (raised name) es = refl
    quiet-start_reply a (returned superseded) es = refl
    quiet-start_reply a (returned (not_started fs)) es = quiet-start_again a fs es
    quiet-start_reply a (returned (started h fs)) es = elim (Bool-cases migration) [
      | inl e ↦ rw e refl
      | inr e ↦ rw e (skips (published a.instance_uuid "running" h.message h.image none) es refl)
    ]

    quiet-start_project_of :
        (a : App) (es : List Event) → m (start_project_of w a migration es).0 ≡ m es
    unfolding start_project_of
    quiet-start_project_of a es = quiet-start_reply a (w.start_project es a) _ ∙ skips _ es refl

    quiet-stop_reply : (a : App) (r : List Event × Bool) → m (stop_reply a r).0 ≡ m r.0
    unfolding stop_reply stop_failed
    quiet-stop_reply a (es, true) = skips _ _ refl ∙ skips _ _ refl
    quiet-stop_reply a (es, false) = skips _ _ refl

    quiet-stop_project : (a : App) (es : List Event) → m (stop_project w a es).0 ≡ m es
    unfolding stop_project run_compose_command
    quiet-stop_project a es =
        quiet-stop_reply a _
        ∙ skips _ es (
            quiet-ran migration (stop_app a.project_name) (w.runs es (stop_app a.project_name))
              refl)

    -- what follows the stop of the legacy app
    module _ (next : List Event → List Event × Outcome)
        (quiet-next : (es : List Event) → m (next es).0 ≡ m es) where
      quiet-stop_legacy_reply :
          (a : App) (phase : Option String) (r : List Event × Bool)
          → m (stop_legacy_reply a phase next r).0 ≡ m r.0
      unfolding stop_legacy_reply legacy_stop_failed stop_failed
      quiet-stop_legacy_reply a phase (es, true) = quiet-next es
      quiet-stop_legacy_reply a none (es, false) = skips _ _ refl ∙ skips _ es refl
      quiet-stop_legacy_reply a (some phase) (es, false) = skips _ es refl

      quiet-stop_legacy_first :
          (a : App) (phase : Option String) (es : List Event)
          → m (stop_legacy_first w a migration phase next es).0 ≡ m es
      unfolding stop_legacy_first run_compose_command
      quiet-stop_legacy_first a phase es = elim (Bool-cases migration) [
        | inr e ↦ rw e (quiet-next es)
        | inl e ↦ rw e (
            quiet-stop_legacy_reply a phase _
            ∙ skips _ es (
                quiet_migrating migration (stop_legacy_app a.instance_uuid)
                  (w.runs es (stop_legacy_app a.instance_uuid)) e))
      ]

    quiet-apply_prepared :
        (a : App) (p : Prepared) (es : List Event) → m (apply_prepared w a migration p es).0 ≡ m es
    unfolding apply_prepared
    quiet-apply_prepared a p es = elim (Bool-cases p.is_stopped) [
      | inl e ↦
          rw e
            (quiet-stop_legacy_first (stop_project w a) (quiet-stop_project a) a (some "stop") es)
      | inr e ↦ rw e (
          quiet-stop_legacy_first (start_project_of w a migration) (quiet-start_project_of a) a none
            es)
    ]

    quiet-apply_preparation :
        (a : App) (r : List Event × Preparation) → m (apply_preparation w a migration r).0 ≡ m r.0
    unfolding apply_preparation
    quiet-apply_preparation a (es, refused c) = refl
    quiet-apply_preparation a (es, ready p) = quiet-apply_prepared a p es

    pub quiet-reconcile_v2_app :
        (a : App) (r : Bool) (given : Option Prepared) (es : List Event)
        → m (reconcile_v2_app w a migration r given es).0 ≡ m es
    unfolding reconcile_v2_app
    quiet-reconcile_v2_app a r none es =
        quiet-apply_preparation a _ ∙ quiet-prepare_v2_app a r false es
    quiet-reconcile_v2_app a r (some p) es = quiet-apply_prepared a p es

  quiet-legacy_running :
      (a : App) (image : Option (Option String)) (es : List Event)
      → m (legacy_running a image es) ≡ m es
  unfolding legacy_running
  quiet-legacy_running a none es = refl
  quiet-legacy_running a (some image) es = skips _ es refl

  pub quiet-publish_legacy :
      (services : Dict (Option String)) (wanted : String → Bool) (apps : List App) (es : List Event)
      → m (publish_migration_legacy_running services wanted apps es) ≡ m es
  unfolding publish_migration_legacy_running
  quiet-publish_legacy services wanted [] es = refl
  quiet-publish_legacy services wanted (a ∷ apps) es = ground (
    arith,
    quiet-publish_legacy services wanted apps es,
    quiet-publish_legacy services wanted apps
        (legacy_running a (lookup a.instance_uuid services) es),
    quiet-legacy_running a (lookup a.instance_uuid services) es,
  )

  quiet-v2_running :
      (a : App) (p : Option Prepared) (es : List Event) → m (v2_running a p es) ≡ m es
  unfolding v2_running
  quiet-v2_running a none es = refl
  quiet-v2_running a (some p) es = skips _ es refl

  pub quiet-publish_v2 :
      (prepared : Dict Prepared) (apps : List App) (es : List Event)
      → m (publish_migration_v2_running prepared apps es) ≡ m es
  unfolding publish_migration_v2_running
  quiet-publish_v2 prepared [] es = refl
  quiet-publish_v2 prepared (a ∷ apps) es = ground (
    arith,
    quiet-publish_v2 prepared apps es,
    quiet-publish_v2 prepared apps (v2_running a (lookup a.instance_uuid prepared) es),
    quiet-v2_running a (lookup a.instance_uuid prepared) es,
  )
