-- ===== src/Project/Order.antt =====
-- dataplane.py: `_completed_init_services` and `_ordered_pending_init_services`. Whether the file of
-- a service's signature holds the signature of its definition is a parameter.
pub mod Visits
pub mod Sequence
pub mod Runnable
use sbnb.Prelude.{
  Option, ℕ, zero, suc, String, Bool, true, false, not, ◌&&◌, ◌||◌, none, some, List, [], ◌∷◌, ◌++◌,
  elem, length,
}
use sbnb.Prelude.Dict.{Dict, lookup, keys}
use sbnb.Project.{Service, service_dependencies, is_init}

-- the names of the services that pass a test, in their order
unfoldable pub names_where : (String → Service → Bool) → Dict Service → List String
names_where p [] = []
names_where p ((n, s) ∷ services) =
    let rest = names_where p services in elim (p n s) [ true ↦ n ∷ rest | false ↦ rest ]

-- `_completed_init_services`
unfoldable pub completed_init_services : (String → Service → Bool) → Dict Service → List String
unfolding names_where
completed_init_services signed services = names_where (λ n s. is_init s && signed n s) services

pub each : (String → List String → List String) → List String → List String → List String
each f [] ordered = ordered
each f (n ∷ names) ordered = each f names (f n ordered)

-- `visit`: whether the name is passed over, the service that it names, and the calls for the
-- dependencies. A name joins `visited` and `ordered` together, so one list stands for both.
pub visit_on :
    Bool
    → Option Service
    → (String → List String → List String)
    → String
    → List String
    → List String
unfolding each
visit_on true found nested name ordered = ordered
visit_on false none nested name ordered = ordered
visit_on false (some s) nested name ordered =
    each nested (service_dependencies s) ordered ++ name ∷ []

-- `visiting` holds the calls that have not returned.
pub visit : ℕ → Dict Service → List String → List String → String → List String → List String
unfolding visit_on
visit zero services pending visiting name ordered = ordered
visit (suc fuel) services pending visiting name ordered =
    visit_on (elem name ordered || not (elem name pending) || elem name visiting)
      (lookup name services) (visit fuel services pending (name ∷ visiting)) name ordered

-- the init services that are to run
unfoldable pub pending_init : Dict Service → List String → List String → List String
unfolding names_where
pending_init services completed skipped =
    names_where (λ n s. is_init s && not (elem n completed) && not (elem n skipped)) services

-- `_ordered_pending_init_services`. A nested call has one more name in `visiting`, so the calls nest
-- no deeper than there are pending names.
unfoldable pub ordered_pending_init_services :
    Dict Service → List String → List String → List String
unfolding visit each pending_init keys
ordered_pending_init_services services completed skipped =
    let pending = pending_init services completed skipped in
    each (visit (suc (length pending)) services pending []) (keys services) []
