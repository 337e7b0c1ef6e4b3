-- ===== src/Project/Rounds.antt =====
-- One round of the loop of `_service_closure` (dataplane.py): what it keeps, and that it comes nearer
-- to its end.
use sbnb.Prelude.{
  ◌+◌, ◌<◌, ◌≤◌, String, Bool, true, false, not, ◌||◌, ◌≡◌, refl, Option, none, some, List, [], ◌∷◌,
  arith, Bool-cases, inl, inr, is_some, str_eq, eq_iff, eq_refl, elem, length,
}
use sbnb.Prelude.Dict.{Dict, lookup}
use sbnb.Project.{
  Service, service_dependencies, insert_name, sort_names, push, round_on, dependencies_left,
}

-- A service that is defined and not excluded.
abbrev pub IsIncluded : Dict Service → List String → String → Type 0
IsIncluded services excluded n = (elem n excluded ≡ false) × (is_some (lookup n services) ≡ true)

pub data Needed (services : Dict Service) (roots excluded : List String) : String → Type 0 where
  root :
      (n : String)
      → elem n roots ≡ true
      → IsIncluded services excluded n
      → Needed services roots excluded n
  dependency :
      {a : String} (s : Service) (n : String)
      → Needed services roots excluded a
      → lookup a services ≡ some s
      → elem n (service_dependencies s) ≡ true
      → IsIncluded services excluded n
      → Needed services roots excluded n

elem-insert_name :
    (n x : String) (xs : List String) → elem n (insert_name x xs) ≡ (str_eq n x || elem n xs)
unfolding insert_name elem
elem-insert_name n x [] = refl
elem-insert_name n x (y ∷ ys) = ground (arith, elem-insert_name n x ys)

pub elem-sort_names : (n : String) (xs : List String) → elem n (sort_names xs) ≡ elem n xs
unfolding sort_names elem
elem-sort_names n [] = refl
elem-sort_names n (x ∷ xs) =
    ground (arith, elem-insert_name n x (sort_names xs), elem-sort_names n xs)

pub elem-push :
    (n : String) (names p : List String) → elem n (push names p) ≡ (elem n names || elem n p)
unfolding push elem
elem-push n [] p = refl
elem-push n (x ∷ names) p = ground (arith, elem-push n names (x ∷ p))

pub length-push : (names p : List String) → length (push names p) ≡ length names + length p
unfolding push
length-push [] p = omega arith
length-push (x ∷ names) p = omega (arith, length-push names (x ∷ p))

is_some_of : {o : Option Service} {s : Service} → o ≡ some s → is_some o ≡ true
is_some_of h = rw h refl

module _ (services : Dict Service) (roots excluded : List String) where
  unfoldable pub IsKnown : List String → Type 0
  IsKnown p =
      (n : String)
      → elem n p ≡ true
      → IsIncluded services excluded n
      → Needed services roots excluded n

  unfoldable pub IsFound : List String → Type 0
  IsFound result = (n : String) → elem n result ≡ true → Needed services roots excluded n

  pub IsKnown-round :
      (skip : Bool) (found : Option Service) (name : String) (p result : List String)
      → lookup name services ≡ found
      → (elem name result || elem name excluded) ≡ skip
      → IsKnown (name ∷ p)
      → IsKnown (round_on skip found name p result).0
  unfolding round_on IsKnown elem
  IsKnown-round true found name p result l s k n e i = k n (ground arith) i
  IsKnown-round false none name p result l s k n e i = k n (ground arith) i
  IsKnown-round false (some x) name p result l s k n e i =
      elim (Bool-cases (elem n (service_dependencies x))) [
        | inl d ↦
            dependency x n (k name (ground (arith, eq_refl name)) (ground arith, is_some_of l)) l d
              i
        | inr d ↦ k n (ground (arith, elem-push n (service_dependencies x) p)) i
      ]

  pub IsFound-round :
      (skip : Bool) (found : Option Service) (name : String) (p result : List String)
      → lookup name services ≡ found
      → (elem name result || elem name excluded) ≡ skip
      → IsKnown (name ∷ p)
      → IsFound result
      → IsFound (round_on skip found name p result).1
  unfolding round_on IsFound IsKnown elem
  IsFound-round true found name p result l s k f n e = f n e
  IsFound-round false none name p result l s k f n e = f n e
  IsFound-round false (some x) name p result l s k f n e = elim (Bool-cases (str_eq n name)) [
    | inl d ↦
        k n (ground arith)
          (ground (arith, eq_iff n name), is_some_of {s = x} (ground (arith, eq_iff n name)))
    | inr d ↦ f n (ground arith)
  ]

  unfoldable pub covered : List String → List String → String → Bool
  covered p result d =
      elem d result || elem d p || elem d excluded || not (is_some (lookup d services))

  pub covered-round :
      (skip : Bool) (found : Option Service) (name : String) (p result : List String) (d : String)
      → lookup name services ≡ found
      → (elem name result || elem name excluded) ≡ skip
      → covered (name ∷ p) result d ≡ true
      → covered (round_on skip found name p result).0 (round_on skip found name p result).1 d ≡ true
  unfolding round_on covered elem
  covered-round true found name p result d l s h = ground (arith, eq_iff d name)
  covered-round false none name p result d l s h = ground (arith, eq_iff d name)
  covered-round false (some x) name p result d l s h =
      ground (arith, elem-push d (service_dependencies x) p)

  left_mono :
      (name : String) (result : List String) (m : Dict Service)
      → dependencies_left m (name ∷ result) ≤ dependencies_left m result
  unfolding dependencies_left elem
  left_mono name result [] = omega arith
  left_mono name result ((k, x) ∷ m) = ground (arith, left_mono name result m)

  left_of_found :
      (name : String) (s : Service) (result : List String) (m : Dict Service)
      → elem name result ≡ false
      → lookup name m ≡ some s
      → dependencies_left m (name ∷ result) + length (service_dependencies s)
        ≤ dependencies_left m result
  unfolding dependencies_left elem lookup
  left_of_found name s result [] h e = cc
  left_of_found name s result ((k, x) ∷ m) h e = elim (Bool-cases (str_eq k name)) [
    | inl q ↦
        let same : x ≡ s = ground arith in
        rw same (ground (arith, eq_iff k name, left_mono name result m))
    | inr q ↦ ground (arith, left_of_found name s result m h (ground arith))
  ]

  pub shrinks :
      (skip : Bool) (found : Option Service) (name : String) (p result : List String)
      → lookup name services ≡ found
      → (elem name result || elem name excluded) ≡ skip
      → length (round_on skip found name p result).0
          + dependencies_left services (round_on skip found name p result).1
        < length (name ∷ p) + dependencies_left services result
  unfolding round_on
  shrinks true found name p result l s = omega arith
  shrinks false none name p result l s = omega arith
  shrinks false (some x) name p result l s = omega (
    arith,
    length-push (service_dependencies x) p,
    left_of_found name x result services (ground arith) l,
  )
