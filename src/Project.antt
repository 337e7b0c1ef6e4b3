-- ===== src/Project.antt =====
-- dataplane.py: the services of an app's Compose project, the plan by which the app is started and
-- the order of its init services. The type of `depends_on` is one of those that Compose has. A set
-- of names is a list; where the code sorts a set, the list is sorted.
pub mod Rounds
pub mod Closure
pub mod Order
pub mod Plan
pub mod Run
use sbnb.Prelude.{
  ℕ, zero, suc, ◌+◌, String, Bool, true, false, not, ◌&&◌, ◌||◌, Option, none, some, List, [], ◌∷◌,
  ◌++◌, if◌then◌else◌, is_some, str_eq, elem, filter, length,
}
use sbnb.Prelude.Dict.{Dict, lookup, remove, keys}
use sbnb.Json.{Json}
use sbnb.ApplyResults.Record.{codes}
use sbnb.ApplyResults.{text_less}

pub data Depends : Type 0 where
  absent : Depends
  mapping : Dict Json → Depends
  listed : List String → Depends

-- `body` is everything else of a service.
pub record Service : Type 0 where
  pub labels : Dict String
  pub depends_on : Depends
  pub body : Json

pub record Compose : Type 0 where
  pub services : Dict Service
  pub body : Json

-- `_service_lifecycle`
or_service : Option String → String
or_service none = "service"
or_service (some t) = if str_eq t "" then "service" else t

unfoldable pub service_lifecycle : Service → String
unfolding or_service lookup
service_lifecycle s = or_service (lookup "ai.reefy.lifecycle" s.labels)

abbrev pub is_init : Service → Bool
is_init s = str_eq (service_lifecycle s) "init"

-- `_service_is_optional`
unfoldable pub service_is_optional : Service → Bool
unfolding lookup
service_is_optional s = elim (lookup "ai.reefy.optional" s.labels) [
  | none ↦ false
  | some t ↦ str_eq t "true"
]

-- `_service_dependencies`
names_of : Depends → List String
unfolding keys
names_of absent = []
names_of (mapping d) = keys d
names_of (listed names) = names

unfoldable pub service_dependencies : Service → List String
unfolding names_of
service_dependencies s = names_of s.depends_on

-- `sorted` of a set of names
insert_name : String → List String → List String
insert_name n [] = n ∷ []
insert_name n (x ∷ xs) =
    let rest = insert_name n xs in if text_less (codes n) (codes x) then n ∷ x ∷ xs else x ∷ rest

unfoldable pub sort_names : List String → List String
unfolding insert_name
sort_names [] = []
sort_names (x ∷ xs) = insert_name x (sort_names xs)

-- `pending.extend(names)`; the end of `pending`, from which it pops, is the head of the list.
pub push : List String → List String → List String
push [] pending = pending
push (n ∷ names) pending = push names (n ∷ pending)

-- one round of the loop of `_service_closure`, on the name that was popped: whether it is passed
-- over, and the service that it names
pub round_on :
    Bool → Option Service → String → List String → List String → List String × List String
unfolding push
round_on true found name pending result = (pending, result)
round_on false none name pending result = (pending, result)
round_on false (some s) name pending result = (push (service_dependencies s) pending, name ∷ result)

pub closure_round :
    Dict Service → List String → String → List String → List String → List String × List String
unfolding round_on
closure_round services excluded name pending result =
    round_on (elem name result || elem name excluded) (lookup name services) name pending result

pub closure_loop : ℕ → Dict Service → List String → List String → List String → List String
unfolding closure_round
closure_loop zero services excluded pending result = result
closure_loop (suc fuel) services excluded [] result = result
closure_loop (suc fuel) services excluded (name ∷ pending) result =
    let (next, found) = closure_round services excluded name pending result in
    closure_loop fuel services excluded next found

-- The dependencies that services outside a result name: each is pushed at most once.
pub dependencies_left : Dict Service → List String → ℕ
dependencies_left [] result = 0
dependencies_left ((name, s) ∷ services) result =
    let rest = dependencies_left services result in
    if elem name result then rest else length (service_dependencies s) + rest

-- `_service_closure`. Each round pops a name, so the fuel is the number of names ever pushed.
unfoldable pub service_closure : Dict Service → List String → List String → List String
unfolding closure_loop sort_names dependencies_left push
service_closure services roots excluded = sort_names (
    closure_loop (suc (length roots + dependencies_left services [])) services excluded
      (push roots []) [])
