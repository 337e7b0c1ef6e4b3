-- ===== src/Migration/Apps/Fine.antt =====
-- dataplane.py: the workers of the apps, when they succeed.
use sbnb.Prelude.Dict.{Dict, lookup}
use sbnb.Prelude.{
  [], String, Bool, true, false, ◌≡◌, refl, Option, none, some, List, ◌∷◌, arith, Bool-cases, inl,
  inr, str_eq,
}
use sbnb.Migration.{
  stop_app, stop_legacy_app, Code, Attempt, raised, returned, Started, superseded, started,
  not_started, Event, published, cleared_signatures, prepared_project, prepared_artifacts,
  started_project, nothing, App, World,
}
use sbnb.Migration.Fine.{Keeps, KeptBy, KeptBy-run}
use sbnb.Migration.Apps.{
  legacy_stop_failed, v2_running, publish_migration_v2_running, stop_reply, stop_legacy_reply,
  Prepared, Preparation, refused, ready, project_reply, prepare_project_of, artifact_reply,
  prepare_v2_app, Outcome, failed, applied, stop_project, stop_failed, stop_legacy_first,
  start_again, start_reply, start_project_of, apply_prepared, apply_preparation, reconcile_v2_app,
}

abbrev pub KeptByPreparation : (List Event → Bool) → List Event × Preparation → Type 0
KeptByPreparation m (es, refused c) = Unit
KeptByPreparation m (es, ready p) = m es ≡ true

abbrev pub KeptByOutcome : (List Event → Bool) → List Event × Outcome → Type 0
KeptByOutcome m (es, failed c fs) = Unit
KeptByOutcome m (es, applied p fs) = m es ≡ true

module _ (m : List Event → Bool) (keeps : Keeps m) (w : World) (a : App) where
  kept-project_reply :
      (r : Attempt (Option Code)) (es : List Event)
      → m es ≡ true
      → KeptByPreparation m (project_reply w a r (prepared_project a.project_name r ∷ es))
  unfolding project_reply
  kept-project_reply (raised n) es h = tt
  kept-project_reply (returned none) es h = keeps _ es refl h
  kept-project_reply (returned (some c)) es h = tt

  kept-artifact_reply :
      (f : Bool) (r : Attempt Bool) (es : List Event)
      → m es ≡ true
      → KeptByPreparation m (artifact_reply w a f r (prepared_artifacts a.instance_uuid r ∷ es))
  unfolding artifact_reply prepare_project_of
  kept-artifact_reply f (raised n) es h = tt
  kept-artifact_reply f (returned true) es h = kept-project_reply _ _ (keeps _ es refl h)
  kept-artifact_reply f (returned false) es h = ground arith

  pub kept-prepare_v2_app :
      (r f : Bool) (es : List Event) → m es ≡ true → KeptByPreparation m (prepare_v2_app w a r f es)
  unfolding prepare_v2_app
  kept-prepare_v2_app r f es h = elim (Bool-cases (str_eq a.instance_uuid "")) [
    | inl e ↦ rw e tt
    | inr e ↦ elim (Bool-cases (str_eq a.project_name "")) [
      | inl e2 ↦ rw (e, e2) tt
      | inr e2 ↦ elim (Bool-cases r) [
        | inl e3 ↦ rw (e, e2, e3) tt
        | inr e3 ↦ elim (Bool-cases a.wants_stopped) [
          | inl e4 ↦ simp (e, e2, e3, e4) h
          | inr e4 ↦ simp (e, e2, e3, e4) (kept-artifact_reply f (w.prepare_artifacts es a) es h)
        ]
      ]
    ]
  ]

  kept-start_reply :
      (migration : Bool) (r : Attempt Started) (es : List Event)
      → m es ≡ true
      → KeptByOutcome m (start_reply w a migration r (started_project a.project_name r ∷ es))
  unfolding start_reply start_again
  kept-start_reply b (raised n) es h = tt
  kept-start_reply b (returned superseded) es h = tt
  kept-start_reply true (returned (not_started fs)) es h = tt
  kept-start_reply false (returned (not_started fs)) es h = tt
  kept-start_reply true (returned (started x fs)) es h = keeps _ es refl h
  kept-start_reply false (returned (started x fs)) es h =
      keeps _ (started_project a.project_name (returned (started x fs)) ∷ es) refl
        (keeps _ es refl h)

  pub kept-start_project_of :
      (migration : Bool) (es : List Event)
      → m es ≡ true
      → KeptByOutcome m (start_project_of w a migration es)
  unfolding start_project_of
  kept-start_project_of b es h = kept-start_reply b (w.start_project es a) es h

  kept-stop_reply : (r : List Event × Bool) → KeptBy m r → KeptByOutcome m (stop_reply a r)
  unfolding stop_reply stop_failed
  kept-stop_reply (es, false) h = tt
  kept-stop_reply (es, true) h =
      keeps (published a.instance_uuid "stopped" nothing none none) _ refl
        (keeps (cleared_signatures a.project_name) es refl h)

  pub kept-stop_project : (es : List Event) → m es ≡ true → KeptByOutcome m (stop_project w a es)
  unfolding stop_project
  kept-stop_project es h =
      kept-stop_reply _ (KeptBy-run m keeps w (stop_app a.project_name) es refl h)

  -- what follows the stop of the legacy app
  module _ (next : List Event → List Event × Outcome)
      (kept-next : (es : List Event) → m es ≡ true → KeptByOutcome m (next es)) where
    kept-stop_legacy_reply :
        (phase : Option String) (r : List Event × Bool)
        → KeptBy m r
        → KeptByOutcome m (stop_legacy_reply a phase next r)
    unfolding stop_legacy_reply legacy_stop_failed stop_failed
    kept-stop_legacy_reply phase (es, true) h = kept-next es h
    kept-stop_legacy_reply none (es, false) h = tt
    kept-stop_legacy_reply (some phase) (es, false) h = tt

    kept-stop_legacy_first :
        (migration : Bool) (phase : Option String) (es : List Event)
        → m es ≡ true
        → KeptByOutcome m (stop_legacy_first w a migration phase next es)
    unfolding stop_legacy_first
    kept-stop_legacy_first false phase es h = kept-next es h
    kept-stop_legacy_first true phase es h =
        kept-stop_legacy_reply phase _
          (KeptBy-run m keeps w (stop_legacy_app a.instance_uuid) es refl h)

  kept-apply_prepared :
      (migration : Bool) (p : Prepared) (es : List Event)
      → m es ≡ true
      → KeptByOutcome m (apply_prepared w a migration p es)
  unfolding apply_prepared
  kept-apply_prepared b p es h = elim (Bool-cases p.is_stopped) [
    | inl e ↦
        rw e (kept-stop_legacy_first (stop_project w a) kept-stop_project b (some "stop") es h)
    | inr e ↦
        rw e (kept-stop_legacy_first (start_project_of w a b) (kept-start_project_of b) b none es h)
  ]

  kept-apply_preparation :
      (migration : Bool) (r : List Event × Preparation)
      → KeptByPreparation m r
      → KeptByOutcome m (apply_preparation w a migration r)
  unfolding apply_preparation
  kept-apply_preparation b (es, refused c) h = tt
  kept-apply_preparation b (es, ready p) h = kept-apply_prepared b p es h

  pub kept-reconcile_v2_app :
      (migration r : Bool) (given : Option Prepared) (es : List Event)
      → m es ≡ true
      → KeptByOutcome m (reconcile_v2_app w a migration r given es)
  unfolding reconcile_v2_app
  kept-reconcile_v2_app b r none es h =
      kept-apply_preparation b _ (kept-prepare_v2_app r false es h)
  kept-reconcile_v2_app b r (some p) es h = kept-apply_prepared b p es h

module _ (m : List Event → Bool) (keeps : Keeps m) where
  kept-v2_running :
      (a : App) (p : Option Prepared) (es : List Event) → m es ≡ true → m (v2_running a p es) ≡ true
  unfolding v2_running
  kept-v2_running a none es h = h
  kept-v2_running a (some p) es h = keeps _ es refl h

  pub kept-publish_v2 :
      (d : Dict Prepared) (apps : List App) (es : List Event)
      → m es ≡ true
      → m (publish_migration_v2_running d apps es) ≡ true
  unfolding publish_migration_v2_running
  kept-publish_v2 d [] es h = h
  kept-publish_v2 d (a ∷ apps) es h = ground (
    arith,
    kept-publish_v2 d apps es h,
    kept-publish_v2 d apps (v2_running a (lookup a.instance_uuid d) es)
        (kept-v2_running a (lookup a.instance_uuid d) es h),
  )
