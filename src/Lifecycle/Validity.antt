-- ===== src/Lifecycle/Validity.antt =====
-- What `_valid_v2_lifecycle` guarantees of the state that it accepts.
use sbnb.Prelude.{
  if◌then◌else◌, eq_iff, str_eq, ℕ, ◌≡◌, refl, true, false, some, List, [], ◌∷◌, arith, All, ◌<◌,
  ◌⊎◌, inl, inr, Bool-cases,
}
use sbnb.Json.{
  Json, null, boolean, int, neg, float, real, text, array, object, Fields, end, field, is_null,
  equals_text, is_positive_int, truthy,
}
use sbnb.Json.Access.{has_key, each, find, or_object}
use sbnb.Lifecycle.{
  status_refused, nat_of, valid_app, valid_apps, valid_v2_lifecycle, app_desired_generation,
  app_desired_status,
}

-- The app is an object, runs or is stopped, and a generation that it names is kept and positive.
pub record IsValidApp (app : Json) : Type 0 where
  pub fields : Fields
  pub is_app : app ≡ object fields
  pub status :
      (app_desired_status app ≡ some (text "running"))
      ⊎ (app_desired_status app ≡ some (text "stopped"))
  pub counted :
      has_key "desired_generation" fields ≡ true
      → (g : ℕ) × (app_desired_generation app ≡ some (some g)) × (0 < g)

abbrev status_of : Json → Json
status_of value = if truthy value then value else text "running"

status_of_accepted :
    (v : Json)
    → status_refused v ≡ false
    → (status_of v ≡ text "running") ⊎ (status_of v ≡ text "stopped")
unfolding status_refused truthy is_null equals_text
status_of_accepted null h = inl refl
status_of_accepted (text t) h = elim (Bool-cases (str_eq t "running")) [
  | inl e ↦ inl (rw ((eq_iff t "running").0 e))
  | inr e ↦ elim (Bool-cases (str_eq t "stopped")) [
    | inl q ↦ inr (rw ((eq_iff t "stopped").0 q))
    | inr q ↦ cc (rw (e, q) at h)
  ]
]
status_of_accepted (boolean b) h = cc
status_of_accepted (int b) h = cc
status_of_accepted (neg b) h = cc
status_of_accepted (float b) h = cc
status_of_accepted (real b) h = cc
status_of_accepted (array b) h = cc
status_of_accepted (object b) h = cc

positive_int-nat_of : (v : Json) → is_positive_int v ≡ true → 0 < nat_of v
unfolding is_positive_int
positive_int-nat_of (int n) h = ground arith
positive_int-nat_of null h = cc
positive_int-nat_of (text t) h = cc
positive_int-nat_of (boolean b) h = cc
positive_int-nat_of (neg b) h = cc
positive_int-nat_of (float b) h = cc
positive_int-nat_of (real b) h = cc
positive_int-nat_of (array b) h = cc
positive_int-nat_of (object b) h = cc

or_object_of_object : (fs : Fields) → or_object (object fs) ≡ object fs
unfolding or_object truthy
or_object_of_object end = refl
or_object_of_object (field k v fs) = refl

valid_object : (fs : Fields) → valid_app (object fs) ≡ some true → IsValidApp (object fs)
unfolding valid_app app_desired_status app_desired_generation
valid_object fs h = record {
  fields = fs;
  is_app = refl;
  status =
      rw (or_object_of_object fs)
        (elim (status_of_accepted (find "desired_status" fs) (ground arith)) [
          | inl e ↦ inl (rw e)
          | inr e ↦ inr (rw e)
        ]);
  counted = λ present. rw (or_object_of_object fs) (
      let positive : is_positive_int (find "desired_generation" fs) ≡ true = ground arith in
      (
        nat_of (find "desired_generation" fs),
        rw positive,
        positive_int-nat_of (find "desired_generation" fs) positive,
      ));
}

valid_app-IsValidApp : (app : Json) → valid_app app ≡ some true → IsValidApp app
unfolding valid_app
valid_app-IsValidApp (object fs) h = valid_object fs h
valid_app-IsValidApp null h = cc
valid_app-IsValidApp (text t) h = cc
valid_app-IsValidApp (boolean b) h = cc
valid_app-IsValidApp (int b) h = cc
valid_app-IsValidApp (neg b) h = cc
valid_app-IsValidApp (float b) h = cc
valid_app-IsValidApp (real b) h = cc
valid_app-IsValidApp (array b) h = cc

All-IsValidApp : (apps : List Json) → valid_apps apps ≡ some true → All IsValidApp apps
unfolding valid_apps
All-IsValidApp [] h = tt
All-IsValidApp (app ∷ apps) h =
    (valid_app-IsValidApp app (ground arith), All-IsValidApp apps (ground arith))

-- Of a state that is accepted, each app is an object, is to run or to be stopped, and keeps the
-- generation that it names, which is positive.
pub valid_v2_lifecycle-IsValidApp :
    (fs : Fields) (apps : List Json)
    → each (find "apps" fs) ≡ some apps
    → valid_v2_lifecycle (object fs) ≡ some true
    → All IsValidApp apps
unfolding valid_v2_lifecycle
valid_v2_lifecycle-IsValidApp fs apps e h = All-IsValidApp apps (rw e at h)
