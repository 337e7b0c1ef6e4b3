-- ===== src/Samples/State.antt =====
-- Samples for the lifecycle of schema-v2 state: one app of generation 2, another that is gone.
use sbnb.Prelude.{◌≡◌, refl, true, some, [], ◌∷◌}
use sbnb.Prelude.Dict.{Dict, lookup, insert}
use sbnb.Json.{
  Json, int, text, null, array, object, nil, cons, Fields, end, field, truthy, equals_nat,
  is_object,
}
use sbnb.Json.Access.{find, each}
use sbnb.Lifecycle.{
  Target, generation, gone, Context, is_v2_state, new_targets, set_project_targets,
  is_current_app_superseded,
}
use sbnb.Lifecycle.Targets.{superseded_after}

abbrev app : Json
app = object (
    field "project_name" (text "p")
      (field "desired_generation" (int 2) (field "desired_status" (text "stopped") end)))

abbrev members : Fields
members = field "schema_version" (int 2) (field "apps" (array (cons app nil)) end)

abbrev old : Dict Target
old = ("p", generation (some 1)) ∷ ("q", generation (some 1)) ∷ []

abbrev context : Context
context = record {
  project_name = "q";
  desired_generation = some 1;
  instance_uuid = "i";
  desired_status = null;
}

superseded_after_example :
    is_current_app_superseded (some context) (("p", generation (some 2)) ∷ ("q", gone) ∷ []) ≡ true
unfolding is_v2_state new_targets set_project_targets lookup insert is_object equals_nat each find
    truthy
superseded_after_example =
    superseded_after (object members) (("p", generation (some 2)) ∷ []) old
      (("p", generation (some 2)) ∷ ("q", gone) ∷ []) context refl refl refl refl
