-- ===== src/Containers.antt =====
-- containers.py: which container an app's terminal is attached to. The names in the state are texts
-- or missing; whether a container runs is given.
pub mod Live
use Prim.Native.String.{◌++◌ as str_append}
use sbnb.Prelude.{
  String, Bool, true, false, not, ◌||◌, Option, none, some, List, [], ◌∷◌, ◌++◌, if◌then◌else◌,
  elem, str_eq,
}
use sbnb.Json.{Json, equals_nat}

pub record App : Type 0 where
  pub instance_uuid : Option String
  pub project_name : Option String
  pub primary_service : Option String

pub record State : Type 0 where
  pub schema_version : Json
  pub apps : List App

-- `value or other` for a text that may be missing
pub or_text : Option String → String → String
or_text none other = other
or_text (some t) other = if str_eq t "" then other else t

has_uuid : String → Option String → Bool
has_uuid uuid none = false
has_uuid uuid (some t) = str_eq t uuid

-- the app of the instance, or the empty object
pub app_of : String → List App → App
unfolding has_uuid
app_of uuid [] = record { instance_uuid = none; project_name = none; primary_service = none }
app_of uuid (a ∷ apps) =
    let rest = app_of uuid apps in if has_uuid uuid a.instance_uuid then a else rest

pub preferred_of : App → String
unfolding or_text
preferred_of app =
    let project = or_text app.project_name "" in
    if str_eq project ""
    then ""
    else str_append project (str_append "-" (str_append (or_text app.primary_service "app") "-1"))

-- the loop that collects candidates
pub add_candidate : String → List String → List String
add_candidate c candidates =
    if str_eq c "" || elem c candidates then candidates else candidates ++ c ∷ []

pub first_running : (String → Bool) → String → List String → String
first_running is_running otherwise [] = otherwise
first_running is_running otherwise (c ∷ candidates) =
    let later = first_running is_running otherwise candidates in if is_running c then c else later

-- the v2 part, on the three names
pub choose : (String → Bool) → String → Option String → String → String
unfolding add_candidate first_running or_text
choose is_running preferred requested legacy =
    first_running is_running (if str_eq preferred "" then or_text requested legacy else preferred)
      (add_candidate legacy (add_candidate (or_text requested "") (add_candidate preferred [])))

abbrev pub legacy_of : String → String
legacy_of uuid = str_append "state-" (str_append uuid "-1")

-- `resolve_app_container`
unfoldable pub resolve_app_container : (String → Bool) → State → String → Option String → String
unfolding choose app_of preferred_of or_text equals_nat
resolve_app_container is_running state uuid requested =
    if equals_nat state.schema_version 2
    then choose is_running (preferred_of (app_of uuid state.apps)) requested (legacy_of uuid)
    else or_text requested (legacy_of uuid)
