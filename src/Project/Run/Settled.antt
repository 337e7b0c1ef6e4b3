-- ===== src/Project/Run/Settled.antt =====
-- How the init services of an app (dataplane.py) stand when their run ends.
use sbnb.Prelude.{
  String, Bool, true, false, ◌≡◌, refl, Option, some, List, [], ◌∷◌, Bool-cases, Option-cases, inl,
  inr, ◌⊎◌, ◌++◌, All,
}
use sbnb.Prelude.Dict.{Dict, lookup, insert}
use sbnb.ApplyResults.Record.{Text}
use sbnb.Project.{Service, Compose}
use sbnb.Project.Order.{completed_init_services, ordered_pending_init_services}
use sbnb.Project.Plan.{compose_without_services}
use sbnb.Project.Run.{
  Event, ran, wrote_signature, InitRun, done, Commands, is_passed_over, on_failure, run_each,
  required_or_default, run_app_init_services,
}

-- The command of a service succeeded, or its failure is passed over.
abbrev pub IsSettled : Commands → Dict Service → List String → String → Type 0
IsSettled w services required n =
    (w.succeeds n ≡ true)
    ⊎ ((s : Service) × (lookup n services ≡ some s) × (is_passed_over required n s ≡ true))

passed_over :
    (b : Bool) (failures result : Dict Text) (name : String) (output : Text) (es : List Event)
    (rest : List Event × InitRun)
    → (on_failure b failures name output es rest).1 ≡ done result
    → (b ≡ true) × (rest.1 ≡ done result)
unfolding on_failure
passed_over true failures result name output es rest h = (refl, h)
passed_over false failures result name output es rest h = cc

module _ (w : Commands) (services : Dict Service) (required : List String) where
  done-IsSettled :
      (names : List String) (c : Compose) (failures result : Dict Text) (es : List Event)
      → (run_each w services required names c failures es).1 ≡ done result
      → All (IsSettled w services required) names
  unfolding run_each
  done-IsSettled [] c failures result es h = tt
  done-IsSettled (n ∷ names) c failures result es h = elim (Option-cases (lookup n services)) [
    | inl e ↦ cc (rw (e, run_each) at h)
    | inr (s, e) ↦ elim (Bool-cases (w.succeeds n)) [
      | inl t ↦ (
        inl t,
        done-IsSettled names (compose_without_services c (n ∷ [])) failures result
            (wrote_signature n ∷ ran n c ∷ es) (rw (e, t, run_each) at h),
      )
      | inr t ↦
          let (over, rest) =
            passed_over (is_passed_over required n s) failures result n (w.output n) (ran n c ∷ es)
              (run_each w services required names (compose_without_services c (n ∷ []))
                (insert n (w.output n) failures) (ran n c ∷ es))
              (rw (e, t, run_each) at h) in
          (
            inr (s, e, over),
            done-IsSettled names (compose_without_services c (n ∷ []))
                (insert n (w.output n) failures) result (ran n c ∷ es) rest,
          )
    ]
  ]

-- A signature is written for a service whose command succeeded.
abbrev pub IsHonest : Commands → Event → Type 0
IsHonest w (ran n c) = Unit
IsHonest w (wrote_signature n) = w.succeeds n ≡ true

on_failure-IsHonest :
    (w : Commands) (b : Bool) (failures : Dict Text) (name : String) (output : Text)
    (es : List Event) (rest : List Event × InitRun)
    → All (IsHonest w) es
    → All (IsHonest w) rest.0
    → All (IsHonest w) (on_failure b failures name output es rest).0
unfolding on_failure
on_failure-IsHonest w true failures name output es rest h k = k
on_failure-IsHonest w false failures name output es rest h k = h

module _ (w : Commands) (services : Dict Service) (required : List String) where
  run_each-IsHonest :
      (names : List String) (c : Compose) (failures : Dict Text) (es : List Event)
      → All (IsHonest w) es
      → All (IsHonest w) (run_each w services required names c failures es).0
  unfolding run_each
  run_each-IsHonest [] c failures es h = h
  run_each-IsHonest (n ∷ names) c failures es h = elim (Option-cases (lookup n services)) [
    | inl e ↦ rw (e, run_each) h
    | inr (s, e) ↦ elim (Bool-cases (w.succeeds n)) [
      | inl t ↦
          rw (e, t, run_each)
            (run_each-IsHonest names (compose_without_services c (n ∷ [])) failures
              (wrote_signature n ∷ ran n c ∷ es) (t, (tt, h)))
      | inr t ↦
          rw (e, t, run_each)
            (on_failure-IsHonest w (is_passed_over required n s) failures n (w.output n)
              (ran n c ∷ es)
              (run_each w services required names (compose_without_services c (n ∷ []))
                (insert n (w.output n) failures) (ran n c ∷ es))
              (tt, h)
              (run_each-IsHonest names (compose_without_services c (n ∷ []))
                (insert n (w.output n) failures) (ran n c ∷ es) (tt, h)))
    ]
  ]

-- When the run of the init services ends without a required failure, the command of each service of
-- the order succeeded, or the service is optional and not required.
pub done_run_settles :
    (w : Commands) (signed : String → Service → Bool) (c : Compose) (skipped : List String)
    (required : Option (List String)) (failures : Dict Text)
    → (run_app_init_services w signed c skipped required).1 ≡ done failures
    → All (IsSettled w c.services (required_or_default required c.services)) (
        ordered_pending_init_services c.services
          (completed_init_services signed c.services)
          skipped)
unfolding run_app_init_services
done_run_settles w signed c skipped required failures h =
    done-IsSettled w c.services (required_or_default required c.services)
      (ordered_pending_init_services c.services (completed_init_services signed c.services) skipped)
      (compose_without_services c (completed_init_services signed c.services ++ skipped)) []
      failures [] h

-- However the run of the init services ends, a signature is written only for a service whose
-- command succeeded.
pub signatures_after_success :
    (w : Commands) (signed : String → Service → Bool) (c : Compose) (skipped : List String)
    (required : Option (List String))
    → All (IsHonest w) (run_app_init_services w signed c skipped required).0
unfolding run_app_init_services
signatures_after_success w signed c skipped required =
    run_each-IsHonest w c.services (required_or_default required c.services)
      (ordered_pending_init_services c.services (completed_init_services signed c.services) skipped)
      (compose_without_services c (completed_init_services signed c.services ++ skipped)) [] [] tt
