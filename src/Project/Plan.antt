-- ===== src/Project/Plan.antt =====
-- dataplane.py: `_compose_without_services`, `_runtime_app_compose` and `_app_project_plan`.
pub mod Without
pub mod Required
use sbnb.Prelude.{
  String, Bool, true, false, not, ◌&&◌, Option, none, some, List, [], ◌∷◌, ◌++◌, if◌then◌else◌,
  elem, str_eq, filter,
}
use sbnb.Prelude.Dict.{Dict, lookup, remove}
use sbnb.Json.{Json}
use sbnb.Project.{
  Depends, absent, mapping, listed, Service, Compose, is_init, service_is_optional, service_closure,
}
use sbnb.Project.Order.{names_where, completed_init_services}

-- `service['depends_on']` without the removed services; an empty one is popped.
keep_mapping : List String → Dict Json → Dict Json
keep_mapping removed [] = []
keep_mapping removed ((n, v) ∷ d) =
    let rest = keep_mapping removed d in if elem n removed then rest else (n, v) ∷ rest

keep_listed : List String → List String → List String
keep_listed removed names = filter (λ n. not (elem n removed)) names

mapping_or_absent : Dict Json → Depends
mapping_or_absent [] = absent
mapping_or_absent (x ∷ d) = mapping (x ∷ d)

listed_or_absent : List String → Depends
listed_or_absent [] = absent
listed_or_absent (x ∷ names) = listed (x ∷ names)

pub depends_without : List String → Depends → Depends
unfolding keep_mapping keep_listed mapping_or_absent listed_or_absent
depends_without removed absent = absent
depends_without removed (mapping d) = mapping_or_absent (keep_mapping removed d)
depends_without removed (listed names) = listed_or_absent (keep_listed removed names)

unfoldable pub service_without : List String → Service → Service
unfolding depends_without
service_without removed s = record s { depends_on = depends_without removed s.depends_on }

pub each_service : List String → Dict Service → Dict Service
unfolding service_without
each_service removed [] = []
each_service removed ((n, s) ∷ services) =
    (n, service_without removed s) ∷ each_service removed services

pub remove_all : List String → Dict Service → Dict Service
remove_all [] services = services
remove_all (n ∷ removed) services = remove_all removed (remove n services)

unfoldable pub compose_without_services : Compose → List String → Compose
unfolding each_service remove_all
compose_without_services c removed = record c {
  services = each_service removed (remove_all removed c.services);
}

-- `_runtime_app_compose`
unfoldable pub runtime_app_compose : Compose → Compose
unfolding compose_without_services names_where
runtime_app_compose c = compose_without_services c (names_where (λ n s. is_init s) c.services)

pub data Kind : Type 0 where
  init runtime : Kind

pub record OptionalService : Type 0 where
  pub kind : Kind
  pub name : String
  pub services : List String
  pub init_dependencies : List String

pub record Plan : Type 0 where
  pub runtime : Compose
  pub required_init : List String
  pub required_runtime : List String
  pub required_services : List String
  pub required_init_services : List String
  pub completed_init : List String
  pub optional : List OptionalService

-- The init services among some names; the names that the code looks up are defined.
pub init_among : Dict Service → List String → List String
init_among services [] = []
init_among services (n ∷ names) =
    let rest = init_among services names in
    elim (lookup n services) [ none ↦ rest | some s ↦ if is_init s then n ∷ rest else rest ]

optional_service : Kind → Dict Service → List String → String → OptionalService
unfolding init_among service_closure
optional_service kind services completed name =
    let closure = service_closure services (name ∷ []) completed in
    record {
      kind = kind;
      name = name;
      services = closure;
      init_dependencies = filter (λ n. not (str_eq n name)) (init_among services closure);
    }

pub optional_services :
    Kind → Dict Service → List String → List String → List String → List OptionalService
unfolding optional_service
optional_services kind services completed required [] = []
optional_services kind services completed required (n ∷ names) =
    let rest = optional_services kind services completed required names in
    if elem n required then rest else optional_service kind services completed n ∷ rest

pub required_init_of : Compose → List String → List String
unfolding names_where
required_init_of c completed =
    names_where (λ n s. is_init s && not (service_is_optional s) && not (elem n completed))
      c.services

optional_init_of : Compose → List String → List String
unfolding names_where
optional_init_of c completed =
    names_where (λ n s. is_init s && service_is_optional s && not (elem n completed)) c.services

pub required_runtime_of : Compose → List String
unfolding names_where runtime_app_compose
required_runtime_of c =
    names_where (λ n s. not (service_is_optional s)) (runtime_app_compose c).services

optional_runtime_of : Compose → List String
unfolding names_where runtime_app_compose
optional_runtime_of c = names_where (λ n s. service_is_optional s) (runtime_app_compose c).services

pub required_services_of : Compose → List String → List String
unfolding service_closure required_init_of required_runtime_of
required_services_of c completed =
    service_closure c.services (required_init_of c completed ++ required_runtime_of c) completed

unfoldable pub plan_of : Compose → List String → Plan
unfolding required_services_of init_among optional_services optional_init_of optional_runtime_of
plan_of c completed =
    let required = required_services_of c completed in
    record {
      runtime = runtime_app_compose c;
      required_init = required_init_of c completed;
      required_runtime = required_runtime_of c;
      required_services = required;
      required_init_services = init_among c.services required;
      completed_init = completed;
      optional =
          optional_services init c.services completed required (optional_init_of c completed)
          ++ optional_services runtime c.services completed required (optional_runtime_of c);
    }

-- `_app_project_plan`
unfoldable pub app_project_plan : (String → Service → Bool) → Compose → String → Option Plan
unfolding plan_of completed_init_services
app_project_plan signed c primary =
    if elem primary (required_runtime_of c)
    then some (plan_of c (completed_init_services signed c.services))
    else none
