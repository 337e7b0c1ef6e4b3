-- ===== src/Project/Plan/Without.antt =====
-- What is left of a Compose project when services are removed (dataplane.py).
use sbnb.Prelude.{
  String, true, false, not, ◌&&◌, ◌≡◌, refl, Option, none, some, List, [], ◌∷◌, arith, eq_iff, elem,
  filter, if◌then◌else◌,
}
use sbnb.Prelude.Dict.{Dict, lookup, remove, keys, lookup-remove}
use sbnb.Json.{Json}
use sbnb.Project.{
  Depends, absent, mapping, listed, Service, Compose, service_dependencies, names_of,
}
use sbnb.Project.Plan.{
  keep_mapping, keep_listed, mapping_or_absent, listed_or_absent, depends_without, service_without,
  each_service, remove_all, compose_without_services,
}

elem-keep_mapping :
    (removed : List String) (d : Dict Json) (n : String)
    → elem n (keys (keep_mapping removed d)) ≡ (elem n (keys d) && not (elem n removed))
unfolding keep_mapping keys elem
elem-keep_mapping removed [] n = refl
elem-keep_mapping removed ((k, v) ∷ d) n = ground (arith, eq_iff n k, elem-keep_mapping removed d n)

elem-keep_listed :
    (removed names : List String) (n : String)
    → elem n (keep_listed removed names) ≡ (elem n names && not (elem n removed))
unfolding keep_listed elem filter
elem-keep_listed removed [] n = refl
elem-keep_listed removed (x ∷ names) n =
    ground (arith, eq_iff n x, elem-keep_listed removed names n)

names-mapping_or_absent : (d : Dict Json) → names_of (mapping_or_absent d) ≡ keys d
unfolding names_of mapping_or_absent keys
names-mapping_or_absent [] = refl
names-mapping_or_absent (x ∷ d) = refl

names-listed_or_absent : (names : List String) → names_of (listed_or_absent names) ≡ names
unfolding names_of listed_or_absent
names-listed_or_absent [] = refl
names-listed_or_absent (x ∷ names) = refl

elem-depends :
    (removed : List String) (d : Depends) (n : String)
    → elem n (names_of (depends_without removed d)) ≡ (elem n (names_of d) && not (elem n removed))
unfolding depends_without names_of elem
elem-depends removed absent n = refl
elem-depends removed (mapping d) n =
    rw (names-mapping_or_absent (keep_mapping removed d)) (elem-keep_mapping removed d n)
elem-depends removed (listed names) n =
    rw (names-listed_or_absent (keep_listed removed names)) (elem-keep_listed removed names n)

lookup-remove_all :
    (removed : List String) (services : Dict Service) (n : String)
    → lookup n (remove_all removed services) ≡ (if elem n removed then none else lookup n services)
unfolding remove_all elem
lookup-remove_all [] services n = refl
lookup-remove_all (x ∷ removed) services n = ground (
  arith,
  lookup-remove_all removed (remove x services) n,
  lookup-remove x n services,
  eq_iff n x,
  eq_iff x n,
)

abbrev without : List String → Option Service → Option Service
without removed none = none
without removed (some s) = some (service_without removed s)

lookup-each_service :
    (removed : List String) (services : Dict Service) (n : String)
    → lookup n (each_service removed services) ≡ without removed (lookup n services)
unfolding each_service lookup
lookup-each_service removed [] n = refl
lookup-each_service removed ((k, s) ∷ services) n =
    ground (arith, lookup-each_service removed services n)

-- A service that is removed from a Compose project is no longer defined; any other service keeps
-- its labels and the rest of its definition, and depends on just what it depended on that was not
-- removed.
pub compose_without_services_exact :
    (c : Compose) (removed : List String) (n : String)
    → (elem n removed ≡ true → lookup n (compose_without_services c removed).services ≡ none)
      × ((s : Service)
          → elem n removed ≡ false
          → lookup n c.services ≡ some s
          → (t : Service) × (lookup n (compose_without_services c removed).services ≡ some t)
            × (t.labels ≡ s.labels)
            × (t.body ≡ s.body)
            × ((d : String)
                → elem d (service_dependencies t)
                  ≡ (elem d (service_dependencies s) && not (elem d removed))))
unfolding compose_without_services service_without service_dependencies
compose_without_services_exact c removed n = (
  λ h.
      rw
        (
          lookup-each_service removed (remove_all removed c.services) n,
          lookup-remove_all removed c.services n,
          h,
        )
        refl,
  λ s h l. (
    service_without removed s,
    rw
        (
          lookup-each_service removed (remove_all removed c.services) n,
          lookup-remove_all removed c.services n,
          h,
          l,
        )
        refl,
    refl,
    refl,
    elem-depends removed s.depends_on,
  ),
)
