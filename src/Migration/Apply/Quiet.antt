-- ===== src/Migration/Apply/Quiet.antt =====
-- dataplane.py: the loops of `_apply_v2_projects`, where they leave the legacy project alone.
use sbnb.Prelude.{ap, Bool, ◌≡◌, refl, ◌∙◌, Option, List, [], ◌∷◌, arith}
use sbnb.Migration.{reset_retry, scheduled_retry, Event, App, State, World}
use sbnb.Migration.Quiet.{Skips, quiet-remove_absent}
use sbnb.Migration.Apps.{Prepared, Preparation, refused, ready, Outcome, failed, applied}
use sbnb.Migration.Apps.Quiet.{quiet-prepare_v2_app, quiet-reconcile_v2_app}
use sbnb.Migration.Apply.{
  desired_projects, Warning, Progress, Request, note_failure, collect_preparation, prepare_each,
  add_optional, collect_failure, collect_outcome, reconcile_each, reconcile_all, schedule_or_reset,
}

events-collect_preparation :
    (a : App) (r : List Event × Preparation) (pr : Progress)
    → (collect_preparation a r pr).events ≡ r.0
unfolding collect_preparation note_failure
events-collect_preparation a (es, refused c) pr = ground arith
events-collect_preparation a (es, ready p) pr = refl

pub events-collect_outcome :
    (a : App) (mig : Bool) (given : Option Prepared) (r : List Event × Outcome) (pr : Progress)
    → (collect_outcome a mig given r pr).events ≡ r.0
unfolding collect_outcome collect_failure note_failure add_optional
events-collect_outcome a mig given (es, failed c fs) pr = ground arith
events-collect_outcome a mig given (es, applied p fs) pr = refl

module _ (migration : Bool) (m : List Event → Bool) (skips : Skips migration m) where
  pub quiet-schedule :
      (warnings : List Warning) (es : List Event) → m (schedule_or_reset warnings es).0 ≡ m es
  unfolding schedule_or_reset
  quiet-schedule warnings es =
      ground (arith, skips scheduled_retry es refl, skips reset_retry es refl)

  module _ (w : World) (q : Request) where
    pub quiet-prepare_each :
        (apps : List App) (pr : Progress) → m (prepare_each w q apps pr).events ≡ m pr.events
    unfolding prepare_each
    quiet-prepare_each [] pr = refl
    quiet-prepare_each (a ∷ apps) pr =
        quiet-prepare_each apps _
        ∙ ap m (events-collect_preparation a _ pr)
        ∙ quiet-prepare_v2_app migration m skips w a _ _ pr.events

    quiet-reconcile_each :
        (apps : List App) (pr : Progress)
        → m (reconcile_each w q migration apps pr).events ≡ m pr.events
    unfolding reconcile_each
    quiet-reconcile_each [] pr = refl
    quiet-reconcile_each (a ∷ apps) pr =
        quiet-reconcile_each apps _
        ∙ ap m (events-collect_outcome a migration _ _ pr)
        ∙ quiet-reconcile_v2_app migration m skips w a _ _ pr.events

    pub quiet-reconcile_all :
        (s : State) (pr : Progress) → m (reconcile_all w s q migration pr).events ≡ m pr.events
    unfolding reconcile_all
    quiet-reconcile_all s pr =
        quiet-reconcile_each w.reconcile_order _
        ∙ quiet-remove_absent migration m skips w (desired_projects s.apps) pr.events
