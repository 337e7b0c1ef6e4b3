-- ===== src/Migration/Apply/TwoPhase.antt =====
-- dataplane.py: the two phases of a migration. Every app is prepared before the legacy project is
-- touched.
use sbnb.Prelude.{
  All, eq_refl, String, Bool, true, false, ◌||◌, ◌≡◌, refl, ◌∙◌, List, [], ◌∷◌, arith, Bool-cases,
  inl, inr,
}
use sbnb.Prelude.Dict.{lookup-insert}
use sbnb.Migration.{run_compose_command, Event, ran, App, State, World, v2_migration_pending}
use sbnb.Migration.Quiet.{is_legacy, Skips}
use sbnb.Migration.Apps.{Preparation, refused, ready}
use sbnb.Migration.Apps.Quiet.{quiet-publish_legacy}
use sbnb.Migration.Apply.{
  Progress, Request, note_failure, collect_preparation, prepare_each, is_prepared,
  after_preparation, migrate, reconcile_system, apply_v2_projects, begin,
}
use sbnb.Migration.Apply.Quiet.{quiet-schedule, quiet-prepare_each, quiet-reconcile_all}

abbrev pub is_legacy_event : Event → Bool
is_legacy_event (ran c ok) = is_legacy c
is_legacy_event _ = false

-- A command has acted on the legacy project.
abbrev pub touches_legacy : List Event → Bool
touches_legacy [] = false
touches_legacy (e ∷ es) = is_legacy_event e || touches_legacy es

-- what the first pool leaves when it starts from no events but the system's
abbrev pub prepared_by : World → Request → Progress
prepared_by w q = prepare_each w q w.preparation_order (begin (Event.prepared_system true ∷ []) [])

touches_legacy-Skips : Skips false touches_legacy
touches_legacy-Skips e es h = ground arith

-- A failure stays, and so does what is prepared.
failed-collect :
    (a : App) (r : List Event × Preparation) (pr : Progress)
    → pr.migration_failed ≡ true
    → (collect_preparation a r pr).migration_failed ≡ true
unfolding collect_preparation note_failure
failed-collect a (es, refused c) pr h = ground arith
failed-collect a (es, ready p) pr h = h

prepared-collect :
    (a : App) (r : List Event × Preparation) (pr : Progress) (uuid : String)
    → is_prepared pr.prepared_apps uuid ≡ true
    → is_prepared (collect_preparation a r pr).prepared_apps uuid ≡ true
unfolding collect_preparation note_failure
prepared-collect a (es, refused c) pr uuid h = ground arith
prepared-collect a (es, ready p) pr uuid h =
    ground (arith, lookup-insert a.instance_uuid uuid p pr.prepared_apps)

-- an app that is taken is prepared, or the migration has failed
prepared_or_failed :
    (a : App) (r : List Event × Preparation) (pr : Progress)
    → (collect_preparation a r pr).migration_failed ≡ false
    → is_prepared (collect_preparation a r pr).prepared_apps a.instance_uuid ≡ true
unfolding collect_preparation note_failure
prepared_or_failed a (es, refused c) pr h = ground arith
prepared_or_failed a (es, ready p) pr h = ground (
  arith,
  lookup-insert a.instance_uuid a.instance_uuid p pr.prepared_apps,
  eq_refl a.instance_uuid,
)

module _ (w : World) (q : Request) where
  failed-prepare_each :
      (apps : List App) (pr : Progress)
      → pr.migration_failed ≡ true
      → (prepare_each w q apps pr).migration_failed ≡ true
  unfolding prepare_each
  failed-prepare_each [] pr h = h
  failed-prepare_each (a ∷ apps) pr h = failed-prepare_each apps _ (failed-collect a _ pr h)

  prepared-prepare_each :
      (apps : List App) (pr : Progress) (uuid : String)
      → is_prepared pr.prepared_apps uuid ≡ true
      → is_prepared (prepare_each w q apps pr).prepared_apps uuid ≡ true
  unfolding prepare_each
  prepared-prepare_each [] pr uuid h = h
  prepared-prepare_each (a ∷ apps) pr uuid h =
      prepared-prepare_each apps _ uuid (prepared-collect a _ pr uuid h)

  pub not_yet_failed :
      (apps : List App) (pr : Progress)
      → (prepare_each w q apps pr).migration_failed ≡ false
      → pr.migration_failed ≡ false
  not_yet_failed apps pr h = ground (arith, failed-prepare_each apps pr)

  none_missing :
      (apps : List App) (pr : Progress)
      → (prepare_each w q apps pr).migration_failed ≡ false
      → All
          (λ (a : App). is_prepared (prepare_each w q apps pr).prepared_apps a.instance_uuid ≡ true)
          apps
  unfolding prepare_each
  none_missing [] pr h = tt
  none_missing (a ∷ apps) pr h = (
    prepared-prepare_each apps _ a.instance_uuid
        (prepared_or_failed a _ pr (not_yet_failed apps _ h)),
    none_missing apps _ h,
  )

  untouched-after_preparation :
      (s : State) (pr : Progress)
      → pr.migration_failed ≡ true
      → touches_legacy (after_preparation w s q pr).0 ≡ touches_legacy pr.events
  unfolding after_preparation
  untouched-after_preparation s pr h = rw h (
      quiet-schedule false touches_legacy touches_legacy-Skips _ _
      ∙ quiet-publish_legacy false touches_legacy touches_legacy-Skips _ _ s.apps pr.events)

  untouched-migrate :
      (s : State)
      → (prepared_by w q).migration_failed ≡ true
      → touches_legacy (migrate w s q).0 ≡ false
  unfolding migrate
  untouched-migrate s h = elim (Bool-cases (w.prepare_system [])) [
    | inl e ↦ rw e (
        untouched-after_preparation s _ h
        ∙ quiet-prepare_each false touches_legacy touches_legacy-Skips w q w.preparation_order _)
    | inr e ↦ rw e refl
  ]

  untouched-apply :
      (s : State)
      → (prepared_by w q).migration_failed ≡ true
      → touches_legacy (apply_v2_projects w s q).0 ≡ false
  unfolding apply_v2_projects reconcile_system run_compose_command
  untouched-apply s h = elim (Bool-cases (v2_migration_pending w)) [
    | inl e ↦ rw e (untouched-migrate s h)
    | inr e ↦ rw e (
        quiet-schedule false touches_legacy touches_legacy-Skips _ _
        ∙ quiet-reconcile_all false touches_legacy touches_legacy-Skips w q s _)
  ]

-- When `_apply_v2_projects` runs any command on the legacy project, every app of the first pool has
-- been prepared: one app that is refused leaves the legacy project alone.
pub prepared_before_handoff :
    (w : World) (s : State) (q : Request)
    → touches_legacy (apply_v2_projects w s q).0 ≡ true
    → All
        (λ (a : App). is_prepared (prepared_by w q).prepared_apps a.instance_uuid ≡ true)
        w.preparation_order
prepared_before_handoff w s q h =
    none_missing w q w.preparation_order _ (ground (arith, untouched-apply w q s))
