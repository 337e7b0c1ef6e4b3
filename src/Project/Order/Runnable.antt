-- ===== src/Project/Order/Runnable.antt =====
-- The order of the init services (dataplane.py) when the dependencies have no cycle.
use sbnb.Prelude.{
  elem-append, length, ℕ, zero, suc, ◌<◌, String, Bool, true, false, not, ◌||◌, ◌≡◌, refl, Option,
  none, some, List, [], ◌∷◌, arith, Bool-cases, inl, inr, is_some, str_eq, eq_iff, eq_refl, elem,
}
use sbnb.Prelude.Dict.{keys, Dict, lookup}
use sbnb.Project.{Service, service_dependencies}
use sbnb.Project.Order.{ordered_pending_init_services, pending_init, each, visit_on, visit}
use sbnb.Project.Order.Visits.{
  left-le-length, left_shrinks, Keeps-visit, each-adds, left, Keeps, or_right,
}
use sbnb.Project.Order.Sequence.{
  irreflexive, same_dependencies, known_pending, IsAcyclic, IsRunnable, IsRunnable-snoc,
  IsRunnable-each,
}

module _ (services : Dict Service) (pending : List String) where
  module _ (rank : String → ℕ) (acyclic : IsAcyclic services pending rank)
      (known : (n : String) → elem n pending ≡ true → is_some (lookup n services) ≡ true) where
    -- the name stands below all calls that have not returned
    IsBelow : List String → String → Type 0
    IsBelow visiting name = (v : String) → elem v visiting ≡ true → rank name < rank v

    IsBelow-dependency :
        (visiting : List String) (name d : String) (s : Service)
        → IsBelow visiting name
        → lookup name services ≡ some s
        → elem d (service_dependencies s) ≡ true
        → elem d pending ≡ true
        → IsBelow (name ∷ visiting) d
    unfolding IsBelow elem
    IsBelow-dependency visiting name d s h l e p v q = elim (Bool-cases (str_eq v name)) [
      | inl same ↦ ground (arith, eq_iff v name, acyclic name d s l e p)
      | inr other ↦ omega (arith, acyclic name d s l e p, h v (or_right other q))
    ]

    not_visiting :
        (visiting : List String) (name : String)
        → IsBelow visiting name
        → elem name visiting ≡ false
    unfolding IsBelow
    not_visiting visiting name h = elim (Bool-cases (elem name visiting)) [
      | inl e ↦ absurd (irreflexive (h name e))
      | inr e ↦ e
    ]

    found-visit_on :
        (skip : Bool) (found : Option Service) (f : String → List String → List String)
        (visiting : List String) (name : String) (o : List String)
        → (elem name o || not (elem name pending) || elem name visiting) ≡ skip
        → lookup name services ≡ found
        → IsBelow visiting name
        → elem name pending ≡ true
        → elem name (visit_on skip found f name o) ≡ true
    unfolding visit_on elem
    found-visit_on true found f visiting name o s l b p =
        ground (arith, not_visiting visiting name b)
    found-visit_on false none f visiting name o s l b p = cc (known name p, l)
    found-visit_on false (some x) f visiting name o s l b p =
        ground
          (arith, elem-append name (each f (service_dependencies x) o) (name ∷ []), eq_refl name)

    found-visit :
        (fuel : ℕ) (visiting : List String) (name : String) (o : List String)
        → 0 < fuel
        → IsBelow visiting name
        → elem name pending ≡ true
        → elem name (visit fuel services pending visiting name o) ≡ true
    unfolding visit
    found-visit zero visiting name o m b p = absurd (irreflexive m)
    found-visit (suc fuel) visiting name o m b p =
        found-visit_on (elem name o || not (elem name pending) || elem name visiting)
          (lookup name services) (visit fuel services pending (name ∷ visiting)) visiting name o
          refl refl b p

    IsBelow-none : (name : String) → IsBelow [] name
    unfolding IsBelow elem
    IsBelow-none name v e = cc

    IsRunnable-visit_on :
        (skip : Bool) (found : Option Service) (f : String → List String → List String)
        (visiting : List String) (name : String) (o : List String)
        → (elem name o || not (elem name pending) || elem name visiting) ≡ skip
        → lookup name services ≡ found
        → (elem name pending ≡ true → IsBelow visiting name)
        → Keeps f
        → (skip ≡ false
            → elem name pending ≡ true
            → elem name visiting ≡ false
            → (d : String) (q : List String) → IsBelow (name ∷ visiting) d
            → elem d pending ≡ true
            → elem d (f d q) ≡ true)
        → (skip ≡ false
            → elem name pending ≡ true
            → elem name visiting ≡ false
            → (d : String) (q : List String) → (elem d pending ≡ true → IsBelow (name ∷ visiting) d)
            → IsRunnable services pending [] q
            → IsRunnable services pending [] (f d q))
        → IsRunnable services pending [] o
        → IsRunnable services pending [] (visit_on skip found f name o)
    unfolding visit_on
    IsRunnable-visit_on true found f visiting name o s l b k a r h = h
    IsRunnable-visit_on false none f visiting name o s l b k a r h = h
    IsRunnable-visit_on false (some x) f visiting name o s l b k a r h =
        let p : elem name pending ≡ true = ground arith in
        let v : elem name visiting ≡ false = ground arith in
        IsRunnable-snoc services pending name [] (each f (service_dependencies x) o)
          (IsRunnable-each services pending f (service_dependencies x) o
            (λ d q e. r refl p v d q (IsBelow-dependency visiting name d x (b p) l e)) h)
          λ y d m e q. ground (
            arith,
            each-adds f (service_dependencies x) o d k
                (λ t. a refl p v d t (IsBelow-dependency visiting name d y (b p) m e q) q)
                (same_dependencies x y d l m e),
          )

    IsRunnable-visit :
        (fuel : ℕ) (visiting : List String) (name : String) (o : List String)
        → left pending visiting < fuel
        → (elem name pending ≡ true → IsBelow visiting name)
        → IsRunnable services pending [] o
        → IsRunnable services pending [] (visit fuel services pending visiting name o)
    unfolding visit
    IsRunnable-visit zero visiting name o m b h = h
    IsRunnable-visit (suc fuel) visiting name o m b h =
        IsRunnable-visit_on (elem name o || not (elem name pending) || elem name visiting)
          (lookup name services) (visit fuel services pending (name ∷ visiting)) visiting name o
          refl refl b (Keeps-visit services pending fuel (name ∷ visiting))
          (λ s p v d q c e.
            found-visit fuel (name ∷ visiting) d q
              (omega (arith, m, left_shrinks name visiting pending p v)) c e)
          (λ s p v d q c g.
            IsRunnable-visit fuel (name ∷ visiting) d q
              (omega (arith, m, left_shrinks name visiting pending p v)) c g)
          h

-- When the dependencies on pending init services have no cycle, each service in the order of the
-- init services comes after those that it depends on and that are to run, and every pending init
-- service is in the order.
pub init_services_in_order :
    (services : Dict Service) (completed skipped : List String) (rank : String → ℕ)
    → IsAcyclic services (pending_init services completed skipped) rank
    → IsRunnable services
        (pending_init services completed skipped)
        []
        (ordered_pending_init_services services completed skipped)
      × ((n : String)
          → elem n (pending_init services completed skipped) ≡ true
          → elem n (ordered_pending_init_services services completed skipped) ≡ true)
unfolding ordered_pending_init_services
init_services_in_order services completed skipped rank acyclic =
    let pending = pending_init services completed skipped in
    let known = known_pending services completed skipped in
    (
      IsRunnable-each services pending (visit (suc (length pending)) services pending [])
          (keys services) []
          (λ n o e h.
            IsRunnable-visit services pending rank acyclic (λ m q. (known m q).0)
              (suc (length pending)) [] n o (omega (arith, left-le-length pending []))
              (λ p. IsBelow-none services pending rank acyclic (λ m q. (known m q).0) n) h)
          tt,
      λ n p.
          each-adds (visit (suc (length pending)) services pending []) (keys services) [] n
            (Keeps-visit services pending (suc (length pending)) [])
            (λ o.
              found-visit services pending rank acyclic (λ m q. (known m q).0)
                (suc (length pending)) [] n o (omega arith)
                (IsBelow-none services pending rank acyclic (λ m q. (known m q).0) n) p)
            (known n p).1,
    )
