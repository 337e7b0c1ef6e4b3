-- ===== src/Project/Order/Visits.antt =====
-- What the visits of `_ordered_pending_init_services` (dataplane.py) do to the order, whatever the
-- dependencies are.
use sbnb.Prelude.{
  elem-append, subst, ℕ, zero, suc, ◌<◌, ◌≤◌, String, Bool, true, false, not, ◌||◌, ◌≡◌, Option,
  none, some, List, [], ◌∷◌, arith, Bool-cases, inl, inr, is_some, str_eq, eq_iff, elem, length,
  if◌then◌else◌,
}
use sbnb.Prelude.Dict.{Dict, lookup, keys}
use sbnb.Project.{Service, service_dependencies}
use sbnb.Project.Order.{each, visit_on, visit, names_where}

pub or_right : {a b : Bool} → a ≡ false → a || b ≡ true → b ≡ true
or_right q e = ground arith

-- the names of a list that another list leaves out
pub left : List String → List String → ℕ
left [] visiting = 0
left (n ∷ pending) visiting =
    let rest = left pending visiting in if elem n visiting then rest else suc rest

pub left-le-length : (pending visiting : List String) → left pending visiting ≤ length pending
unfolding left
left-le-length [] visiting = omega arith
left-le-length (n ∷ pending) visiting = ground (arith, left-le-length pending visiting)

left_mono :
    (name : String) (visiting pending : List String)
    → left pending (name ∷ visiting) ≤ left pending visiting
unfolding left elem
left_mono name visiting [] = omega arith
left_mono name visiting (n ∷ pending) = ground (arith, left_mono name visiting pending)

pub left_shrinks :
    (name : String) (visiting pending : List String)
    → elem name pending ≡ true
    → elem name visiting ≡ false
    → left pending (name ∷ visiting) < left pending visiting
unfolding left elem
left_shrinks name visiting [] e f = cc
left_shrinks name visiting (n ∷ pending) e f = elim (Bool-cases (str_eq name n)) [
  | inl q ↦ ground (arith, eq_iff name n, eq_iff n name, left_mono name visiting pending)
  | inr q ↦ ground (arith, left_shrinks name visiting pending (ground arith) f)
]

pub Keeps : (String → List String → List String) → Type 0
Keeps f = (n : String) (o : List String) (d : String) → elem d o ≡ true → elem d (f n o) ≡ true

pub Keeps-each :
    (f : String → List String → List String) (names o : List String) (d : String)
    → Keeps f
    → elem d o ≡ true
    → elem d (each f names o) ≡ true
unfolding each Keeps
Keeps-each f [] o d k e = e
Keeps-each f (n ∷ names) o d k e = Keeps-each f names (f n o) d k (k n o d e)

pub each-adds :
    (f : String → List String → List String) (names o : List String) (d : String)
    → Keeps f
    → ((o : List String) → elem d (f d o) ≡ true)
    → elem d names ≡ true
    → elem d (each f names o) ≡ true
unfolding each elem
each-adds f [] o d k a e = cc
each-adds f (n ∷ names) o d k a e = elim (Bool-cases (str_eq d n)) [
  | inl q ↦
      Keeps-each f names (f n o) d k
        (subst (λ m. elem d (f m o) ≡ true) (ground (arith, eq_iff d n)) (a o))
  | inr q ↦ each-adds f names (f n o) d k a (ground arith)
]

module _ (services : Dict Service) (pending : List String) where
  visit_on-Keeps :
      (skip : Bool) (found : Option Service) (f : String → List String → List String)
      (name : String) (o : List String) (d : String)
      → Keeps f
      → elem d o ≡ true
      → elem d (visit_on skip found f name o) ≡ true
  unfolding visit_on
  visit_on-Keeps true found f name o d k e = e
  visit_on-Keeps false none f name o d k e = e
  visit_on-Keeps false (some s) f name o d k e = ground (
    arith,
    elem-append d (each f (service_dependencies s) o) (name ∷ []),
    Keeps-each f (service_dependencies s) o d k e,
  )

  pub Keeps-visit :
      (fuel : ℕ) (visiting : List String) → Keeps (visit fuel services pending visiting)
  unfolding visit Keeps
  Keeps-visit zero visiting name o d e = e
  Keeps-visit (suc fuel) visiting name o d e =
      visit_on-Keeps (elem name o || not (elem name pending) || elem name visiting)
        (lookup name services) (visit fuel services pending (name ∷ visiting)) name o d
        (Keeps-visit fuel (name ∷ visiting)) e

among :
    (p : String → Service → Bool) (k : String) (s : Service) (services : Dict Service) (n : String)
    → elem n (names_where p ((k, s) ∷ services)) ≡ true
    → str_eq n k || elem n (names_where p services) ≡ true
unfolding names_where elem
among p k s services n h = ground (arith, Bool-cases (p k s))

pub known_of_names :
    (p : String → Service → Bool) (services : Dict Service) (n : String)
    → elem n (names_where p services) ≡ true
    → (is_some (lookup n services) ≡ true) × (elem n (keys services) ≡ true)
unfolding elem lookup keys names_where
known_of_names p [] n h = cc
known_of_names p ((k, s) ∷ services) n h = elim (Bool-cases (str_eq n k)) [
  | inl q ↦ ground (arith, eq_iff n k, eq_iff k n)
  | inr q ↦
      let rest = known_of_names p services n (or_right q (among p k s services n h)) in
      ground (arith, eq_iff n k, eq_iff k n, rest.0, rest.1)
]
