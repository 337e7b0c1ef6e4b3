-- ===== src/Project/Plan/Required.antt =====
-- The services that an app's plan (dataplane.py) starts without fail.
use mathlib.Core.Option.{some-injective}
use sbnb.Prelude.{
  elem-append, String, Bool, true, false, not, ◌&&◌, ◌≡◌, refl, none, some, List, [], ◌∷◌, ◌++◌,
  arith, Bool-cases, inl, inr, str_eq, eq_iff, eq_refl, elem, if◌then◌else◌, sym, subst, ◌∙◌,
}
use sbnb.Prelude.Dict.{Dict, lookup, HasUniqueKeys}
use sbnb.Project.{Service, Compose, service_dependencies, is_init, service_is_optional}
use sbnb.Project.Rounds.{root, dependency}
use sbnb.Project.Closure.{service_closure_exact}
use sbnb.Project.Order.{names_where, completed_init_services}
use sbnb.Project.Order.Visits.{known_of_names}
use sbnb.Project.Plan.{
  Plan, runtime_app_compose, required_init_of, required_runtime_of, required_services_of, plan_of,
  app_project_plan, compose_without_services,
}
use sbnb.Project.Plan.Without.{compose_without_services_exact}

absent-names_where :
    (p : String → Service → Bool) (services : Dict Service) (n : String)
    → lookup n services ≡ none
    → elem n (names_where p services) ≡ false
absent-names_where p services n h = elim (Bool-cases (elem n (names_where p services))) [
  | inr e ↦ e
  | inl e ↦ ground (arith, (known_of_names p services n e).0, h)
]

here-names_where :
    (p : String → Service → Bool) (k : String) (x : Service) (services : Dict Service)
    → lookup k services ≡ none
    → elem k (names_where p ((k, x) ∷ services)) ≡ p k x
unfolding names_where elem
here-names_where p k x services u =
    ground (arith, Bool-cases (p k x), eq_refl k, absent-names_where p services k u)

elem-names_where :
    (p : String → Service → Bool) (services : Dict Service) (n : String) (s : Service)
    → HasUniqueKeys services
    → lookup n services ≡ some s
    → elem n (names_where p services) ≡ p n s
unfolding names_where elem lookup
elem-names_where p [] n s u h = cc
elem-names_where p ((k, x) ∷ services) n s u h = elim (Bool-cases (str_eq k n)) [
  | inl q ↦
      let same : x ≡ s = ground arith in
      let name : k ≡ n = ground (arith, eq_iff k n) in
      subst (λ m. elem m (names_where p ((k, x) ∷ services)) ≡ p m s) name
        (subst (λ y. elem k (names_where p ((k, x) ∷ services)) ≡ p k y) same
          (here-names_where p k x services u.0))
  | inr q ↦ ground (
    arith,
    Bool-cases (p k x),
    eq_iff k n,
    eq_iff n k,
    elem-names_where p services n s u.1 (ground arith),
  )
]

-- a service that passes a test is among the names, whether or not its name stands again
named :
    (p : String → Service → Bool) (services : Dict Service) (n : String) (s : Service)
    → lookup n services ≡ some s
    → p n s ≡ true
    → elem n (names_where p services) ≡ true
unfolding names_where elem lookup
named p [] n s h t = cc
named p ((k, x) ∷ services) n s h t = elim (Bool-cases (str_eq k n)) [
  | inl q ↦
      let same : x ≡ s = ground arith in
      let name : k ≡ n = ground (arith, eq_iff k n) in
      let passes : p k x ≡ true =
        subst (λ m. p m x ≡ true) (sym name) (subst (λ y. p n y ≡ true) (sym same) t) in
      ground (arith, passes, eq_iff n k)
  | inr q ↦ ground (arith, Bool-cases (p k x), eq_iff k n, named p services n s (ground arith) t)
]

optional_of_labels :
    (s t : Service) → t.labels ≡ s.labels → service_is_optional t ≡ service_is_optional s
unfolding service_is_optional
optional_of_labels s t h = rw h refl

module _ (c : Compose) (completed : List String) (unique : HasUniqueKeys c.services) where
  in_runtime :
      (n : String) (s : Service)
      → lookup n c.services ≡ some s
      → service_is_optional s ≡ false
      → is_init s ≡ false
      → elem n (required_runtime_of c) ≡ true
  unfolding required_runtime_of runtime_app_compose
  in_runtime n s l o i =
      let removed = names_where (λ n s. is_init s) c.services in
      let stays = elem-names_where (λ n s. is_init s) c.services n s unique l ∙ i in
      let (t, found, labels, body, deps) =
        (compose_without_services_exact c removed n).1 s stays l in
      named (λ n s. not (service_is_optional s)) (compose_without_services c removed).services n t
        found (ground (arith, optional_of_labels s t labels, o))

  in_init :
      (n : String) (s : Service)
      → lookup n c.services ≡ some s
      → service_is_optional s ≡ false
      → is_init s ≡ true
      → elem n completed ≡ false
      → elem n (required_init_of c completed) ≡ true
  unfolding required_init_of
  in_init n s l o i e =
      named (λ n s. is_init s && not (service_is_optional s) && not (elem n completed)) c.services n
        s l (ground (arith, o, i, e))

  pub required_in_plan :
      (n : String) (s : Service)
      → lookup n c.services ≡ some s
      → service_is_optional s ≡ false
      → elem n completed ≡ false
      → elem n (required_services_of c completed) ≡ true
  unfolding required_services_of
  required_in_plan n s l o e =
      (service_closure_exact c.services (required_init_of c completed ++ required_runtime_of c)
          completed n).1
        (root n
          (elim (Bool-cases (is_init s)) [
            | inl i ↦ ground (
              arith,
              elem-append n (required_init_of c completed) (required_runtime_of c),
              in_init n s l o i e,
            )
            | inr i ↦ ground (
              arith,
              elem-append n (required_init_of c completed) (required_runtime_of c),
              in_runtime n s l o i,
            )
          ])
          (e, rw l refl))

  pub dependency_in_plan :
      (a d : String) (s t : Service)
      → elem a (required_services_of c completed) ≡ true
      → lookup a c.services ≡ some s
      → elem d (service_dependencies s) ≡ true
      → lookup d c.services ≡ some t
      → elem d completed ≡ false
      → elem d (required_services_of c completed) ≡ true
  unfolding required_services_of
  dependency_in_plan a d s t h l e m f =
      let roots = required_init_of c completed ++ required_runtime_of c in
      let exact = service_closure_exact c.services roots completed in
      (exact d).1 (dependency s d ((exact a).0 h) l e (f, rw m refl))

plan_of_some :
    (b : Bool) (p q : Plan) → (if b then some p else none) ≡ some q → (b ≡ true) × (p ≡ q)
plan_of_some true p q h = (refl, some-injective p q h)
plan_of_some false p q h = cc

-- The primary service is required; every service that is not optional and has not run to its end is
-- required, and so is what a required service depends on.
abbrev pub Covers : Compose → String → Plan → Type 0
Covers c primary plan =
    (elem primary plan.required_runtime ≡ true)
    × ((n : String) (s : Service)
        → lookup n c.services ≡ some s
        → service_is_optional s ≡ false
        → elem n plan.completed_init ≡ false
        → elem n plan.required_services ≡ true)
    × ((a d : String) (s t : Service)
        → elem a plan.required_services ≡ true
        → lookup a c.services ≡ some s
        → elem d (service_dependencies s) ≡ true
        → lookup d c.services ≡ some t
        → elem d plan.completed_init ≡ false
        → elem d plan.required_services ≡ true)

-- If a project whose services have different names has a plan, then its primary service is among
-- the required runtime services, every service that is not optional and has not run to its end is
-- required, and so is what a required service depends on, if that is defined and has not run to its
-- end.
pub app_project_plan-Covers :
    (signed : String → Service → Bool) (c : Compose) (primary : String) (plan : Plan)
    → HasUniqueKeys c.services
    → app_project_plan signed c primary ≡ some plan
    → Covers c primary plan
unfolding app_project_plan plan_of
app_project_plan-Covers signed c primary plan unique h =
    let completed = completed_init_services signed c.services in
    let (is_required, same) =
      plan_of_some (elem primary (required_runtime_of c)) (plan_of c completed) plan h in
    subst (Covers c primary) same
      (is_required, required_in_plan c completed unique, dependency_in_plan c completed unique)
