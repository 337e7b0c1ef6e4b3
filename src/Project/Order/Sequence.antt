-- ===== src/Project/Order/Sequence.antt =====
-- What it means that services (dataplane.py) can be run in an order, and how such an order grows.
use mathlib.Core.Option.{some-injective}
use sbnb.Prelude.{
  ◌∙◌, sym, ◌&&◌, subst, ℕ, ◌<◌, String, true, not, ◌||◌, ◌≡◌, Option, some, List, [], ◌∷◌, ◌++◌,
  arith, is_some, eq_refl, elem,
}
use sbnb.Prelude.Dict.{keys, Dict, lookup}
use sbnb.Project.{Service, service_dependencies, is_init}
use sbnb.Project.Order.{pending_init, each}
use sbnb.Project.Order.Visits.{known_of_names}

pub irreflexive : {a : ℕ} → ¬ (a < a)
irreflexive h = omega (arith, h)

-- A rank falls along each dependency on a service that is to run, so there is no cycle.
abbrev pub IsAcyclic : Dict Service → List String → (String → ℕ) → Type 0
IsAcyclic services pending rank =
    (a d : String) (s : Service)
    → lookup a services ≡ some s
    → elem d (service_dependencies s) ≡ true
    → elem d pending ≡ true
    → rank d < rank a

-- Each service comes after its dependencies that are to run, but for those that are done before.
abbrev pub IsRunnable : Dict Service → List String → List String → List String → Type 0
IsRunnable services pending done [] = Unit
IsRunnable services pending done (n ∷ order) =
    ((s : Service) (d : String)
      → lookup n services ≡ some s
      → elem d (service_dependencies s) ≡ true
      → elem d pending ≡ true
      → elem d done ≡ true)
    × IsRunnable services pending (n ∷ done) order

pub same_dependencies :
    {o : Option Service} (x y : Service) (d : String)
    → o ≡ some x
    → o ≡ some y
    → elem d (service_dependencies y) ≡ true
    → elem d (service_dependencies x) ≡ true
same_dependencies x y d l m e =
    subst (λ s. elem d (service_dependencies s) ≡ true) (some-injective y x (sym m ∙ l)) e

pub known_pending :
    (services : Dict Service) (completed skipped : List String) (n : String)
    → elem n (pending_init services completed skipped) ≡ true
    → (is_some (lookup n services) ≡ true) × (elem n (keys services) ≡ true)
unfolding pending_init
known_pending services completed skipped n h =
    known_of_names (λ n s. is_init s && not (elem n completed) && not (elem n skipped)) services n h

module _ (services : Dict Service) (pending : List String) where
  pub IsRunnable-snoc :
      (n : String) (done order : List String)
      → IsRunnable services pending done order
      → ((s : Service) (d : String)
          → lookup n services ≡ some s
          → elem d (service_dependencies s) ≡ true
          → elem d pending ≡ true
          → elem d order || elem d done ≡ true)
      → IsRunnable services pending done (order ++ n ∷ [])
  unfolding elem
  IsRunnable-snoc n done [] h k = (k, tt)
  IsRunnable-snoc n done (x ∷ order) h k =
      (h.0, IsRunnable-snoc n (x ∷ done) order h.1 λ s d l e p. ground (arith, k s d l e p))

  pub IsRunnable-each :
      (f : String → List String → List String) (names o : List String)
      → ((n : String) (o : List String)
          → elem n names ≡ true
          → IsRunnable services pending [] o
          → IsRunnable services pending [] (f n o))
      → IsRunnable services pending [] o
      → IsRunnable services pending [] (each f names o)
  unfolding each elem
  IsRunnable-each f [] o k h = h
  IsRunnable-each f (n ∷ names) o k h =
      IsRunnable-each f names (f n o) (λ m p e. k m p (ground arith))
        (k n o (ground (arith, eq_refl n)) h)
