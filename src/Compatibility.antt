-- ===== src/Compatibility.antt =====
-- compatibility.py: the validation of the firmware's compatibility manifest. The keys of an object
-- are texts, as in JSON; none is the ValueError.
pub mod Accepted
use sbnb.Prelude.{
  ℕ, String, Bool, true, false, not, ◌&&◌, ◌||◌, Option, none, some, List, [], ◌∷◌, ◌==◌, str_eq,
  if◌then◌else◌,
}
use sbnb.Json.{
  Json, null, boolean, int, neg, float, real, text, array, object, Items, nil, cons, Fields, end,
  field, equals_nat, is_positive_int,
}
use sbnb.Json.Access.{find, has_key}

-- names that are not empty, with positive revisions
pub revisions_ok : Fields → Bool
unfolding is_positive_int
revisions_ok end = true
revisions_ok (field name revision fs) =
    not (str_eq name "") && is_positive_int revision && revisions_ok fs

-- `_positive_revision` of every version
all_positive : Items → Bool
unfolding is_positive_int
all_positive nil = true
all_positive (cons v vs) = is_positive_int v && all_positive vs

-- `v in vs`, of versions that are positive integers
has_version : Json → Items → Bool
has_version v nil = false
has_version (int n) (cons (int m) vs) = n == m || has_version (int n) vs
has_version v (cons x vs) = has_version v vs

-- `len(set(versions)) == len(versions)`
all_differ : Items → Bool
unfolding has_version
all_differ nil = true
all_differ (cons v vs) = not (has_version v vs) && all_differ vs

pub versions_ok : Json → Bool
unfolding all_positive all_differ
versions_ok (array (cons v vs)) = all_positive (cons v vs) && all_differ (cons v vs)
versions_ok _ = false

pub family_ok : Json → Bool
unfolding revisions_ok
family_ok null = true
family_ok (object fs) = revisions_ok fs
family_ok _ = false

pub features_ok : Json → Bool
unfolding revisions_ok
features_ok (object fs) = revisions_ok fs
features_ok _ = false

pub desired_state_ok : Json → Bool
unfolding versions_ok features_ok find has_key
desired_state_ok null = true
desired_state_ok (object fs) =
    versions_ok (find "versions" fs)
    && (if has_key "features" fs then features_ok (find "features" fs) else true)
desired_state_ok _ = false

pub protocols_ok : Json → Bool
unfolding desired_state_ok family_ok find
protocols_ok (object fs) =
    desired_state_ok (find "desired_state" fs)
    && family_ok (find "commands" fs)
    && family_ok (find "events" fs)
protocols_ok _ = false

-- `validate_manifest`
unfoldable pub validate_manifest : Json → Option Json
unfolding protocols_ok equals_nat find
validate_manifest (object fs) =
    if equals_nat (find "manifest_version" fs) 1 && protocols_ok (find "protocols" fs)
    then some (object fs)
    else none
validate_manifest _ = none
