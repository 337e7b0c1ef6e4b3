-- ===== src/Project/Closure.antt =====
-- The closure of services under their dependencies (dataplane.py): the whole loop.
use sbnb.Prelude.{
  Bool, Option, none, Bool-cases, inl, inr, str_eq, eq_iff, ◌↔◌, sym, ◌∙◌, ℕ, zero, suc, ◌+◌, ◌<◌,
  String, true, false, ◌||◌, ◌≡◌, refl, some, List, [], ◌∷◌, arith, elem, length,
}
use sbnb.Prelude.Dict.{Dict, lookup}
use sbnb.Project.{
  Service, service_dependencies, push, round_on, closure_round, closure_loop, dependencies_left,
  service_closure,
}
use sbnb.Project.Rounds.{
  Needed, root, dependency, IsKnown, IsFound, IsKnown-round, IsFound-round, covered, covered-round,
  shrinks, elem-sort_names, elem-push, length-push,
}

nothing_below : {a : ℕ} → ¬ (a < 0)
nothing_below h = omega (arith, h)

or_right : {a b : Bool} → a ≡ false → a || b ≡ true → b ≡ true
or_right q e = ground arith

module _ (services : Dict Service) (roots excluded : List String) where
  IsFound-loop :
      (fuel : ℕ) (p result : List String)
      → IsKnown services roots excluded p
      → IsFound services roots excluded result
      → IsFound services roots excluded (closure_loop fuel services excluded p result)
  unfolding closure_loop closure_round
  IsFound-loop zero p result k f = f
  IsFound-loop (suc fuel) [] result k f = f
  IsFound-loop (suc fuel) (name ∷ p) result k f =
      let skip = elem name result || elem name excluded in
      IsFound-loop fuel (closure_round services excluded name p result).0
        (closure_round services excluded name p result).1
        (IsKnown-round services roots excluded skip (lookup name services) name p result refl refl
          k)
        (IsFound-round services roots excluded skip (lookup name services) name p result refl refl k
          f)

  -- every name in a list is in the result, or is still to come, excluded or undefined
  IsCovered : List String → List String → List String → Type 0
  IsCovered names p result =
      (d : String) → elem d names ≡ true → covered services roots excluded p result d ≡ true

  record IsClosed (p result : List String) : Type 0 where
    at_roots : IsCovered roots p result
    at_found :
        (a : String) (s : Service)
        → elem a result ≡ true
        → lookup a services ≡ some s
        → IsCovered (service_dependencies s) p result

  new_dependency :
      (name : String) (s : Service) (p result : List String) (d : String)
      → elem d (service_dependencies s) ≡ true
      → covered services roots excluded (push (service_dependencies s) p) (name ∷ result) d ≡ true
  unfolding covered
  new_dependency name s p result d g = ground (arith, elem-push d (service_dependencies s) p)

  at_found-round :
      (skip : Bool) (found : Option Service) (name : String) (p result : List String)
      → lookup name services ≡ found
      → (elem name result || elem name excluded) ≡ skip
      → IsClosed (name ∷ p) result
      → (a : String) (s : Service) → elem a (round_on skip found name p result).1 ≡ true
      → lookup a services ≡ some s
      → IsCovered
          (service_dependencies s)
          (round_on skip found name p result).0
          (round_on skip found name p result).1
  unfolding IsCovered round_on elem
  at_found-round true found name p result l s h a x e f d g =
      covered-round services roots excluded true found name p result d l s (h.at_found a x e f d g)
  at_found-round false none name p result l s h a x e f d g =
      covered-round services roots excluded false none name p result d l s (h.at_found a x e f d g)
  at_found-round false (some y) name p result l s h a x e f d g =
      elim (Bool-cases (str_eq a name)) [
        | inl q ↦
            let same : y ≡ x = ground (arith, eq_iff a name) in
            new_dependency name y p result d (rw same g)
        | inr q ↦
            covered-round services roots excluded false (some y) name p result d l s
              (h.at_found a x (or_right q e) f d g)
      ]

  IsClosed-round :
      (name : String) (p result : List String)
      → IsClosed (name ∷ p) result
      → IsClosed
          (closure_round services excluded name p result).0
          (closure_round services excluded name p result).1
  unfolding closure_round IsCovered
  IsClosed-round name p result h =
      let skip = elem name result || elem name excluded in
      record {
        at_roots = λ d e.
            covered-round services roots excluded skip (lookup name services) name p result d refl
              refl (h.at_roots d e);
        at_found = at_found-round skip (lookup name services) name p result refl refl h;
      }

  IsClosed-loop :
      (fuel : ℕ) (p result : List String)
      → length p + dependencies_left services result < fuel
      → IsClosed p result
      → IsClosed [] (closure_loop fuel services excluded p result)
  unfolding closure_loop closure_round
  IsClosed-loop zero p result m h = absurd (nothing_below m)
  IsClosed-loop (suc fuel) [] result m h = h
  IsClosed-loop (suc fuel) (name ∷ p) result m h =
      let skip = elem name result || elem name excluded in
      IsClosed-loop fuel (closure_round services excluded name p result).0
        (closure_round services excluded name p result).1
        (omega (
          arith,
          shrinks services roots excluded skip (lookup name services) name p result refl refl,
        ))
        (IsClosed-round name p result h)

  in_closed :
      (result : List String) (n : String)
      → IsClosed [] result
      → Needed services roots excluded n
      → elem n result ≡ true
  unfolding IsCovered covered elem
  in_closed result k h (root n e i) = ground (arith, h.at_roots n e, i.0, i.1)
  in_closed result k h (dependency {a} s n before l e i) =
      ground (arith, h.at_found a s (in_closed result a h before) l n e, i.0, i.1)

  start : List String
  start = push roots []

  found_all : List String
  found_all =
      closure_loop (suc (length roots + dependencies_left services [])) services excluded start []

  IsClosed-found_all : IsClosed [] found_all
  unfolding found_all start IsCovered covered elem
  IsClosed-found_all =
      IsClosed-loop (suc (length roots + dependencies_left services [])) (push roots []) []
        (omega (arith, length-push roots []))
        record { at_roots = λ d e. ground (arith, elem-push d roots []); at_found = λ a s e. cc }

  IsFound-found_all : IsFound services roots excluded found_all
  unfolding found_all start IsFound IsKnown elem
  IsFound-found_all =
      IsFound-loop (suc (length roots + dependencies_left services [])) (push roots []) []
        (λ n e i. root n (ground (arith, elem-push n roots [])) i) (λ n e. cc)

-- The closure of some services holds exactly the names that can be reached from them along declared
-- dependencies, by way of services that are defined and not excluded.
pub service_closure_exact :
    (services : Dict Service) (roots excluded : List String) (n : String)
    → (elem n (service_closure services roots excluded) ≡ true) ↔ Needed services roots excluded n
unfolding service_closure found_all start IsFound
service_closure_exact services roots excluded n = (
  λ h.
      IsFound-found_all services roots excluded n
        (sym (elem-sort_names n (found_all services roots excluded)) ∙ h),
  λ d.
      elem-sort_names n (found_all services roots excluded)
      ∙ in_closed services roots excluded (found_all services roots excluded) n
          (IsClosed-found_all services roots excluded) d,
)
