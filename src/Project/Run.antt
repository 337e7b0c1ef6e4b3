-- ===== src/Project/Run.antt =====
-- dataplane.py: `_run_app_init_services`. How `docker compose run` ends for a service, and what it
-- prints, is given; what is run and which signature files are written is recorded, the latest first.
pub mod Settled
use sbnb.Prelude.{
  String, Bool, true, false, not, ◌&&◌, Option, none, some, List, [], ◌∷◌, ◌++◌, elem,
}
use sbnb.Prelude.Dict.{Dict, lookup, insert}
use sbnb.ApplyResults.Record.{Text}
use sbnb.Project.{Service, Compose, is_init, service_is_optional}
use sbnb.Project.Order.{names_where, completed_init_services, ordered_pending_init_services}
use sbnb.Project.Plan.{compose_without_services}

pub data Event : Type 0 where
  ran : String → Compose → Event
  wrote_signature : String → Event

-- `(True, optional_failures, None)`, `(False, optional_failures, (name, output))`, or the exception
-- for a name that is no service
pub data InitRun : Type 0 where
  done : Dict Text → InitRun
  stopped : Dict Text → String → Text → InitRun
  key_error : InitRun

pub record Commands : Type 0 where
  pub succeeds : String → Bool
  pub output : String → Text

-- whether a failure of the service is passed over
pub is_passed_over : List String → String → Service → Bool
is_passed_over required name s = service_is_optional s && not (elem name required)

-- what a failed command does, given what the rest of the loop does when it is passed over
pub on_failure :
    Bool → Dict Text → String → Text → List Event → List Event × InitRun → List Event × InitRun
on_failure true failures name output events rest = rest
on_failure false failures name output events rest = (events, stopped failures name output)

-- The loop over the ordered services.
pub run_each :
    Commands
    → Dict Service
    → List String
    → List String
    → Compose
    → Dict Text
    → List Event
    → List Event × InitRun
unfolding on_failure is_passed_over insert compose_without_services
run_each w services required [] execution failures events = (events, done failures)
run_each w services required (name ∷ names) execution failures events =
    let started = ran name execution ∷ events in
    let next = compose_without_services execution (name ∷ []) in
    let after_success =
      run_each w services required names next failures (wrote_signature name ∷ started) in
    let after_failure =
      run_each w services required names next (insert name (w.output name) failures) started in
    elim (lookup name services) [
      | none ↦ (events, key_error)
      | some s ↦ elim (w.succeeds name) [
        | true ↦ after_success
        | false ↦
            on_failure (is_passed_over required name s) failures name (w.output name) started
              after_failure
      ]
    ]

-- `required_init_services` where the caller gives none
unfoldable pub required_or_default : Option (List String) → Dict Service → List String
unfolding names_where
required_or_default none services =
    names_where (λ n s. is_init s && not (service_is_optional s)) services
required_or_default (some required) services = required

-- `_run_app_init_services`
unfoldable pub run_app_init_services :
    Commands
    → (String → Service → Bool)
    → Compose
    → List String
    → Option (List String)
    → List Event × InitRun
unfolding run_each required_or_default
run_app_init_services w signed c skipped required =
    let completed = completed_init_services signed c.services in
    run_each w c.services (required_or_default required c.services)
      (ordered_pending_init_services c.services completed skipped)
      (compose_without_services c (completed ++ skipped)) [] []
