-- ===== src/Migration/Apps/Wanted.antt =====
-- dataplane.py: whether a prepared app is to be stopped, as its desired state says.
use mathlib.Core.Option.{some-injective}
use sbnb.Prelude.{
  subst, ap, String, Bool, true, false, ◌≡◌, refl, sym, ◌∙◌, Option, none, some, List, [], ◌∷◌, All,
  arith, Bool-cases, inl, inr, str_eq, eq_iff,
}
use sbnb.Prelude.Dict.{Dict, lookup, insert}
use sbnb.Migration.{
  Code, Attempt, raised, returned, Started, superseded, started, not_started, Event, App, World,
  run_compose_command, stop_legacy_app, stop_app,
}
use sbnb.Migration.Apps.{
  reconcile_v2_app, apply_preparation, Prepared, Preparation, refused, ready, project_reply,
  prepare_project_of, artifact_reply, prepare_v2_app, Outcome, failed, applied, stop_failed,
  legacy_stop_failed, stop_reply, stop_project, stop_legacy_reply, stop_legacy_first, start_again,
  start_reply, start_project_of, apply_prepared,
}

-- The prepared app of an id is to be stopped when the apps of that id are.
abbrev pub Agrees : (String → Bool) → Dict Prepared → Type 0
Agrees wants d = All (λ (x : String × Prepared). x.1.is_stopped ≡ wants x.0) d

pub Agrees-insert :
    (wants : String → Bool) (key : String) (p : Prepared) (d : Dict Prepared)
    → p.is_stopped ≡ wants key
    → Agrees wants d
    → Agrees wants (insert key p d)
unfolding insert
Agrees-insert wants key p [] h k = (h, tt)
Agrees-insert wants key p ((j, v) ∷ d) h k = elim (Bool-cases (str_eq j key)) [
  | inl e ↦ rw e (h ∙ sym (ap wants ((eq_iff j key).0 e)), k.1)
  | inr e ↦ rw e (k.0, Agrees-insert wants key p d h k.1)
]

pub Agrees-lookup :
    (wants : String → Bool) (key : String) (p : Prepared) (d : Dict Prepared)
    → Agrees wants d
    → lookup key d ≡ some p
    → p.is_stopped ≡ wants key
unfolding lookup
Agrees-lookup wants key p [] h e = cc
Agrees-lookup wants key p ((j, v) ∷ d) h e = elim (Bool-cases (str_eq j key)) [
  | inl q ↦
      let same : v ≡ p = some-injective v p (rw q at e) in
      ap (λ (x : Prepared). x.is_stopped) (sym same) ∙ h.0 ∙ ap wants ((eq_iff j key).0 q)
  | inr q ↦ Agrees-lookup wants key p d h.1 (rw q at e)
]

-- what a preparation, and an outcome, hold of an app that is or is not to be stopped
abbrev pub PreparedFor : Bool → Preparation → Type 0
PreparedFor b (refused code) = Unit
PreparedFor b (ready p) = p.is_stopped ≡ b

abbrev pub AppliedFor : Bool → Outcome → Type 0
AppliedFor b (failed code failures) = Unit
AppliedFor b (applied p failures) = p.is_stopped ≡ b

module _ (w : World) (a : App) where
  for-project_reply :
      (r : Attempt (Option Code)) (es : List Event) → PreparedFor false (project_reply w a r es).1
  unfolding project_reply
  for-project_reply (raised n) es = tt
  for-project_reply (returned none) es = refl
  for-project_reply (returned (some c)) es = tt

  for-artifact_reply :
      (forced : Bool) (r : Attempt Bool) (es : List Event)
      → PreparedFor false (artifact_reply w a forced r es).1
  unfolding artifact_reply prepare_project_of
  for-artifact_reply forced (raised n) es = tt
  for-artifact_reply forced (returned true) es = for-project_reply _ _
  for-artifact_reply forced (returned false) es = ground arith

  pub for-prepare_v2_app :
      (r forced : Bool) (es : List Event)
      → PreparedFor a.wants_stopped (prepare_v2_app w a r forced es).1
  unfolding prepare_v2_app
  for-prepare_v2_app r forced es = elim (Bool-cases (str_eq a.instance_uuid "")) [
    | inl e ↦ rw e tt
    | inr e ↦ elim (Bool-cases (str_eq a.project_name "")) [
      | inl e2 ↦ rw (e, e2) tt
      | inr e2 ↦ elim (Bool-cases r) [
        | inl e3 ↦ rw (e, e2, e3) tt
        | inr e3 ↦ elim (Bool-cases a.wants_stopped) [
          | inl e4 ↦ simp (e, e2, e3, e4) refl
          | inr e4 ↦ simp (e, e2, e3, e4) (for-artifact_reply forced (w.prepare_artifacts es a) _)
        ]
      ]
    ]
  ]

  for-start_reply :
      (migration : Bool) (r : Attempt Started) (es : List Event)
      → AppliedFor false (start_reply w a migration r es).1
  unfolding start_reply start_again
  for-start_reply m (raised n) es = tt
  for-start_reply m (returned superseded) es = tt
  for-start_reply true (returned (not_started fs)) es = tt
  for-start_reply false (returned (not_started fs)) es = tt
  for-start_reply m (returned (started x fs)) es = refl

  for-stop_reply : (r : List Event × Bool) → AppliedFor true (stop_reply a r).1
  unfolding stop_reply stop_failed
  for-stop_reply (es, true) = refl
  for-stop_reply (es, false) = tt

  module _ (b : Bool) (next : List Event → List Event × Outcome)
      (for-next : (es : List Event) → AppliedFor b (next es).1) where
    for-stop_legacy_reply :
        (phase : Option String) (r : List Event × Bool)
        → AppliedFor b (stop_legacy_reply a phase next r).1
    unfolding stop_legacy_reply legacy_stop_failed stop_failed
    for-stop_legacy_reply phase (es, true) = for-next es
    for-stop_legacy_reply none (es, false) = tt
    for-stop_legacy_reply (some phase) (es, false) = tt

    for-stop_legacy_first :
        (migration : Bool) (phase : Option String) (es : List Event)
        → AppliedFor b (stop_legacy_first w a migration phase next es).1
    unfolding stop_legacy_first
    for-stop_legacy_first false phase es = for-next es
    for-stop_legacy_first true phase es =
        for-stop_legacy_reply phase (run_compose_command w (stop_legacy_app a.instance_uuid) es)

  for-apply_prepared :
      (migration : Bool) (p : Prepared) (es : List Event)
      → AppliedFor p.is_stopped (apply_prepared w a migration p es).1
  unfolding apply_prepared stop_project start_project_of
  for-apply_prepared m p es = elim (Bool-cases p.is_stopped) [
    | inl e ↦ simp e (
        for-stop_legacy_first true (stop_project w a)
          (λ fs. for-stop_reply (run_compose_command w (stop_app a.project_name) fs)) m
          (some "stop") es)
    | inr e ↦ simp e (
        for-stop_legacy_first false (start_project_of w a m)
          (λ fs. for-start_reply m (w.start_project fs a) _) m none es)
  ]

  for-apply_preparation :
      (migration : Bool) (r : List Event × Preparation)
      → PreparedFor a.wants_stopped r.1
      → AppliedFor a.wants_stopped (apply_preparation w a migration r).1
  unfolding apply_preparation
  for-apply_preparation m (es, refused c) h = tt
  for-apply_preparation m (es, ready p) h =
      subst (λ b. AppliedFor b (apply_prepared w a m p es).1) h (for-apply_prepared m p es)

  pub for-reconcile_v2_app :
      (migration r : Bool) (given : Option Prepared) (es : List Event)
      → ((p : Prepared) → given ≡ some p → p.is_stopped ≡ a.wants_stopped)
      → AppliedFor a.wants_stopped (reconcile_v2_app w a migration r given es).1
  unfolding reconcile_v2_app
  for-reconcile_v2_app m r none es h =
      for-apply_preparation m (prepare_v2_app w a r false es) (for-prepare_v2_app r false es)
  for-reconcile_v2_app m r (some p) es h =
      subst (λ b. AppliedFor b (apply_prepared w a m p es).1) (h p refl) (for-apply_prepared m p es)
