-- ===== src/Lifecycle.antt =====
-- dataplane.py: the lifecycle fields of schema-v2 desired state, and the targets by which a worker
-- sees that newer state has replaced what it applies. An exception that the code does not catch is
-- `none`. A name that is used as a key is a text.
pub mod Targets
pub mod Validity
use sbnb.Prelude.{
  ℕ, String, Bool, true, false, not, ◌&&◌, Option, none, some, List, [], ◌∷◌, ◌==◌, str_eq,
  if◌then◌else◌, is_some,
}
use sbnb.Prelude.Dict.{Dict, lookup, insert}
use sbnb.Json.{
  Json, text, int, object, truthy, equals_nat, equals_text, is_positive_int, is_object, is_null,
}
use sbnb.Json.Access.{get?, has_key, each, or_object, ◌>>=◌}

-- `_is_v2_state`
unfoldable pub is_v2_state : Json → Bool
unfolding get?
is_v2_state state =
    is_object state && elim (get? "schema_version" state) [ none ↦ false | some v ↦ equals_nat v 2 ]

abbrev nat_of : Json → ℕ
nat_of (int n) = n
nat_of _ = 0

-- `_app_desired_generation`
unfoldable pub app_desired_generation : Json → Option (Option ℕ)
unfolding get? or_object is_positive_int
app_desired_generation app = do
  value ← get? "desired_generation" (or_object app)
  some (if is_positive_int value then some (nat_of value) else none)

-- `_app_desired_status`
unfoldable pub app_desired_status : Json → Option Json
unfolding get? or_object truthy
app_desired_status app = do
  value ← get? "desired_status" (or_object app)
  some (if truthy value then value else text "running")

-- the body of the loop of `_valid_v2_lifecycle`; `some false` is `return False`
generation_ok : Json → Bool
unfolding has_key get? is_positive_int
generation_ok (object fs) =
    if has_key "desired_generation" fs
    then elim (get? "desired_generation" (object fs)) [ none ↦ false | some g ↦ is_positive_int g ]
    else true
generation_ok _ = true

status_refused : Json → Bool
unfolding equals_text is_null
status_refused status =
    not (is_null status) && not (equals_text status "running") && not (equals_text status "stopped")

unfoldable pub valid_app : Json → Option Bool
unfolding get? generation_ok status_refused
valid_app app = do
  status ← get? "desired_status" app
  some (if status_refused status then false else generation_ok app)

valid_apps : List Json → Option Bool
unfolding valid_app
valid_apps [] = some true
valid_apps (app ∷ apps) =
    let rest = valid_apps apps in
    elim (valid_app app) [ none ↦ none | some false ↦ some false | some true ↦ rest ]

unfoldable pub valid_v2_lifecycle : Json → Option Bool
unfolding valid_apps get? each
valid_v2_lifecycle state = do apps ← get? "apps" state; list ← each apps; valid_apps list

-- What `_project_targets` holds: a generation, or the fresh object that equals nothing else.
pub data Target : Type 0 where
  generation : Option ℕ → Target
  gone : Target

-- the dict comprehension of `_set_project_targets`
add_target : Json → Json → Dict Target → Option (Dict Target)
unfolding app_desired_generation truthy
add_target (text p) app targets =
    if truthy (text p)
    then (do g ← app_desired_generation app; some (insert p (generation g) targets))
    else some targets
add_target name app targets = if truthy name then none else some targets

target_of : Json → Dict Target → Option (Dict Target)
unfolding get? add_target
target_of app targets = do name ← get? "project_name" app; add_target name app targets

targets_from : List Json → Dict Target → Option (Dict Target)
unfolding target_of
targets_from [] targets = some targets
targets_from (app ∷ apps) targets = elim (target_of app targets) [
  | none ↦ none
  | some t ↦ targets_from apps t
]

unfoldable pub new_targets : Json → Option (Dict Target)
unfolding targets_from get? each
new_targets state = do apps ← get? "apps" state; list ← each apps; targets_from list []

-- the two statements under `_project_targets_lock`
retire : Dict Target → Dict Target → Dict Target
retire targets [] = []
retire targets ((p, t) ∷ old) =
    (p, (if is_some (lookup p targets) then t else gone)) ∷ retire targets old

merge : Dict Target → Dict Target → Dict Target
merge [] old = old
merge ((p, t) ∷ targets) old = merge targets (insert p t old)

unfoldable pub replace_targets : Dict Target → Dict Target → Dict Target
unfolding retire merge
replace_targets targets old = merge targets (retire targets old)

-- `_set_project_targets`
unfoldable pub set_project_targets : Json → Dict Target → Option (Dict Target)
unfolding is_v2_state new_targets replace_targets
set_project_targets state old =
    if is_v2_state state then (do t ← new_targets state; some (replace_targets t old)) else some old

-- `_app_reconcile_local.value`: the app that the thread is applying.
pub record Context : Type 0 where
  pub project_name : String
  pub desired_generation : Option ℕ
  pub instance_uuid : String
  pub desired_status : Json

same_generation : Option ℕ → Option ℕ → Bool
same_generation none none = true
same_generation (some a) (some b) = a == b
same_generation _ _ = false

pub differs : Target → Option ℕ → Bool
unfolding same_generation
differs (generation g) h = not (same_generation g h)
differs gone h = true

-- `_is_current_app_superseded`
unfoldable pub is_current_app_superseded : Option Context → Dict Target → Bool
unfolding differs lookup
is_current_app_superseded none targets = false
is_current_app_superseded (some c) targets =
    if str_eq c.project_name "" then false else elim (lookup c.project_name targets) [
      | none ↦ false
      | some t ↦ differs t c.desired_generation
    ]

-- `_wait_for_app_supersession`: the observations are those of the rounds that the deadline
-- allows, each the targets seen and whether time remains after it.
unfoldable pub wait_for_app_supersession : Option Context → List (Dict Target × Bool) → Option Bool
unfolding is_current_app_superseded
wait_for_app_supersession c [] = none
wait_for_app_supersession c ((targets, remains) ∷ rounds) =
    let rest = wait_for_app_supersession c rounds in
    if is_current_app_superseded c targets then some true else if remains then rest else some false
