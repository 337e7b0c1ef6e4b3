-- ===== src/Migration/Apps/Brought.antt =====
-- dataplane.py: an app whose worker succeeds runs in its own project, or is stopped there.
use sbnb.Migration.Apps.Wanted.{PreparedFor, for-prepare_v2_app}
use sbnb.Prelude.{
  sym, ◌∙◌, not, ◌&&◌, ◌≡◌, refl, Bool, true, false, ◌||◌, Option, none, some, List, [], ◌∷◌,
  str_eq, eq_refl, arith, Bool-cases, inl, inr, String,
}
use sbnb.Migration.{
  stop_app, Attempt, raised, returned, Started, superseded, started, not_started, Event, ran,
  started_project, App, World, run_compose_command, stop_legacy_app,
}
use sbnb.Migration.Fine.{Keeps}
use sbnb.Migration.Apps.{
  legacy_stop_failed, legacy_stop_failed, legacy_stop_failed, legacy_stop_failed, Prepared,
  Preparation, refused, ready, Outcome, stop_reply, stop_project, stop_legacy_reply,
  stop_legacy_first, start_again, start_reply, start_project_of, apply_prepared, apply_preparation,
  reconcile_v2_app, stop_failed, prepare_v2_app,
}
use sbnb.Migration.Apps.Fine.{KeptByOutcome}

-- the event that the app's own project started, or stopped where it is to be stopped
abbrev pub brings : App → Event → Bool
brings a (started_project name (returned (started _ _))) =
    not a.wants_stopped && str_eq name a.project_name
brings a (ran (stop_app name) true) = a.wants_stopped && str_eq name a.project_name
brings a _ = false

-- The app's own project was started, or stopped where it is to be stopped, with success.
abbrev pub brought_in : App → List Event → Bool
brought_in a [] = false
brought_in a (e ∷ es) = brings a e || brought_in a es

pub brought_in-Keeps : (a : App) → Keeps (brought_in a)
brought_in-Keeps a e es f h = ground arith

module _ (w : World) (a : App) where
  brought-start_reply :
      (migration : Bool) (r : Attempt Started) (es : List Event)
      → a.wants_stopped ≡ false
      → KeptByOutcome
          (brought_in a)
          (start_reply w a migration r (started_project a.project_name r ∷ es))
  unfolding start_reply start_again
  brought-start_reply b (raised n) es h = tt
  brought-start_reply b (returned superseded) es h = tt
  brought-start_reply true (returned (not_started fs)) es h = tt
  brought-start_reply false (returned (not_started fs)) es h = tt
  brought-start_reply true (returned (started x fs)) es h = ground (arith, eq_refl a.project_name)
  brought-start_reply false (returned (started x fs)) es h = ground (arith, eq_refl a.project_name)

  brought-start_project_of :
      (migration : Bool)
      → a.wants_stopped ≡ false
      → (es : List Event) → KeptByOutcome (brought_in a) (start_project_of w a migration es)
  unfolding start_project_of
  brought-start_project_of b h es = brought-start_reply b (w.start_project es a) es h

  brought-stop_reply :
      (ok : Bool) (es : List Event)
      → a.wants_stopped ≡ true
      → KeptByOutcome (brought_in a) (stop_reply a (ran (stop_app a.project_name) ok ∷ es, ok))
  unfolding stop_reply stop_failed
  brought-stop_reply true es h = ground (arith, eq_refl a.project_name)
  brought-stop_reply false es h = tt

  brought-stop_project :
      a.wants_stopped ≡ true
      → (es : List Event) → KeptByOutcome (brought_in a) (stop_project w a es)
  unfolding stop_project run_compose_command
  brought-stop_project h es = brought-stop_reply (w.runs es (stop_app a.project_name)) es h

  module _ (next : List Event → List Event × Outcome)
      (brought-next : (es : List Event) → KeptByOutcome (brought_in a) (next es)) where
    brought-stop_legacy_reply :
        (phase : Option String) (r : List Event × Bool)
        → KeptByOutcome (brought_in a) (stop_legacy_reply a phase next r)
    unfolding stop_legacy_reply legacy_stop_failed stop_failed
    brought-stop_legacy_reply phase (es, true) = brought-next es
    brought-stop_legacy_reply none (es, false) = tt
    brought-stop_legacy_reply (some phase) (es, false) = tt

    brought-stop_legacy_first :
        (migration : Bool) (phase : Option String) (es : List Event)
        → KeptByOutcome (brought_in a) (stop_legacy_first w a migration phase next es)
    unfolding stop_legacy_first
    brought-stop_legacy_first false phase es = brought-next es
    brought-stop_legacy_first true phase es =
        brought-stop_legacy_reply phase (run_compose_command w (stop_legacy_app a.instance_uuid) es)

  brought-apply_prepared :
      (migration : Bool) (p : Prepared) (es : List Event)
      → p.is_stopped ≡ a.wants_stopped
      → KeptByOutcome (brought_in a) (apply_prepared w a migration p es)
  unfolding apply_prepared
  brought-apply_prepared b p es h = elim (Bool-cases p.is_stopped) [
    | inl e ↦ simp e (
        brought-stop_legacy_first (stop_project w a) (brought-stop_project (sym h ∙ e)) b
          (some "stop") es)
    | inr e ↦ simp e (
        brought-stop_legacy_first (start_project_of w a b) (brought-start_project_of b (sym h ∙ e))
          b none es)
  ]

  brought-apply_preparation :
      (migration : Bool) (r : List Event × Preparation)
      → PreparedFor a.wants_stopped r.1
      → KeptByOutcome (brought_in a) (apply_preparation w a migration r)
  unfolding apply_preparation
  brought-apply_preparation b (es, refused c) h = tt
  brought-apply_preparation b (es, ready p) h = brought-apply_prepared b p es h

  pub brought-reconcile_v2_app :
      (migration r : Bool) (given : Option Prepared) (es : List Event)
      → ((p : Prepared) → given ≡ some p → p.is_stopped ≡ a.wants_stopped)
      → KeptByOutcome (brought_in a) (reconcile_v2_app w a migration r given es)
  unfolding reconcile_v2_app
  brought-reconcile_v2_app b r none es h =
      brought-apply_preparation b (prepare_v2_app w a r false es)
        (for-prepare_v2_app w a r false es)
  brought-reconcile_v2_app b r (some p) es h = brought-apply_prepared b p es (h p refl)
