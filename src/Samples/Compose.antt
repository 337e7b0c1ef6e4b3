-- ===== src/Samples/Compose.antt =====
-- Samples for the services of an app: an init service that fills a database after another one has
-- made it, the database and the app.
use sbnb.Prelude.{
  ◌<◌, subst, sym, ℕ, String, Bool, true, false, not, ◌&&◌, ◌≡◌, refl, none, some, [], ◌∷◌, arith,
  str_eq, elem, if◌then◌else◌, inl, inr, Bool-cases, eq_iff, ◌↔◌,
}
use sbnb.Prelude.Dict.{Dict, lookup, HasUniqueKeys, remove}
use sbnb.Json.{null}
use sbnb.Project.{
  absent, listed, Service, Compose, service_closure, service_dependencies, service_lifecycle,
  service_is_optional,
}
use sbnb.Project.Rounds.{Needed}
use sbnb.Project.Closure.{service_closure_exact}
use sbnb.Project.Order.{ordered_pending_init_services, pending_init, completed_init_services}
use sbnb.Project.Order.Runnable.{init_services_in_order}
use sbnb.Project.Order.Sequence.{IsAcyclic, IsRunnable}
use sbnb.Project.Plan.{
  plan_of, Plan, compose_without_services, app_project_plan, runtime_app_compose,
}
use sbnb.Project.Plan.Without.{compose_without_services_exact}
use sbnb.Project.Plan.Required.{Covers, app_project_plan-Covers}

abbrev init_labels : Dict String
init_labels = ("ai.reefy.lifecycle", "init") ∷ []

abbrev seed : Service
seed = record { labels = init_labels; depends_on = absent; body = null }

abbrev fill : Service
fill = record { labels = init_labels; depends_on = listed ("seed" ∷ []); body = null }

abbrev db : Service
db = record { labels = []; depends_on = absent; body = null }

abbrev app : Service
app = record { labels = []; depends_on = listed ("fill" ∷ "db" ∷ []); body = null }

abbrev services : Dict Service
services = ("app", app) ∷ ("fill", fill) ∷ ("seed", seed) ∷ ("db", db) ∷ []

abbrev compose : Compose
compose = record { services = services; body = null }

abbrev rank : String → ℕ
rank n = if str_eq n "fill" then 1 else 0

abbrev nothing_signed : String → Service → Bool
nothing_signed n s = false

service_closure_exact_example :
    (elem "seed" (service_closure services ("app" ∷ []) []) ≡ true)
    ↔ Needed services ("app" ∷ []) [] "seed"
service_closure_exact_example = service_closure_exact services ("app" ∷ []) [] "seed"

order : ordered_pending_init_services services [] [] ≡ "seed" ∷ "fill" ∷ []
unfolding ordered_pending_init_services elem service_lifecycle service_dependencies
order = refl

compose_without_services_exact_example :
    (elem "db" ("db" ∷ []) ≡ true
      → lookup "db" (compose_without_services compose ("db" ∷ [])).services ≡ none)
    × ((s : Service)
        → elem "db" ("db" ∷ []) ≡ false
        → lookup "db" services ≡ some s
        → (t : Service) × (lookup "db" (compose_without_services compose ("db" ∷ [])).services
            ≡ some t)
          × (t.labels ≡ s.labels)
          × (t.body ≡ s.body)
          × ((d : String)
              → elem d (service_dependencies t)
                ≡ (elem d (service_dependencies s) && not (elem d ("db" ∷ [])))))
compose_without_services_exact_example = compose_without_services_exact compose ("db" ∷ []) "db"

unique : HasUniqueKeys services
unfolding lookup
unique = (refl, (refl, (refl, (refl, tt))))

-- the init services alone
abbrev makers : Dict Service
makers = ("fill", fill) ∷ ("seed", seed) ∷ []

fill_after_seed : (d : String) → elem d ("seed" ∷ []) ≡ true → rank d < 1
unfolding elem
fill_after_seed d e = elim (Bool-cases (str_eq d "seed")) [
  | inl q ↦ subst (λ n. rank n < 1) (sym ((eq_iff d "seed").0 q)) (omega arith)
  | inr q ↦ ground arith
]

IsAcyclic-makers : IsAcyclic makers ("fill" ∷ "seed" ∷ []) rank
unfolding lookup elem service_dependencies
IsAcyclic-makers a d s l e p = elim (Bool-cases (str_eq "fill" a)) [
  | inl q ↦
      let same : fill ≡ s = ground arith in
      subst (λ n. rank d < rank n) ((eq_iff "fill" a).0 q)
        (fill_after_seed d (subst (λ t. elem d (service_dependencies t) ≡ true) (sym same) e))
  | inr q ↦ elim (Bool-cases (str_eq "seed" a)) [
    | inl r ↦
        let same : seed ≡ s = ground arith in
        cc (subst (λ t. elem d (service_dependencies t) ≡ true) (sym same) e)
    | inr r ↦ ground arith
  ]
]

init_services_in_order_example :
    IsRunnable makers (pending_init makers [] []) [] (ordered_pending_init_services makers [] [])
    × ((n : String)
        → elem n (pending_init makers [] []) ≡ true
        → elem n (ordered_pending_init_services makers [] []) ≡ true)
unfolding pending_init service_lifecycle elem
init_services_in_order_example = init_services_in_order makers [] [] rank IsAcyclic-makers

abbrev plan : Plan
plan = plan_of compose (completed_init_services nothing_signed services)

app_project_plan-Covers_example : Covers compose "app" plan
unfolding app_project_plan elem service_is_optional runtime_app_compose service_lifecycle remove
app_project_plan-Covers_example =
    app_project_plan-Covers nothing_signed compose "app" plan unique refl
