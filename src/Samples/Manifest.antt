-- ===== src/Samples/Manifest.antt =====
-- Samples for the compatibility manifest: two versions of desired state and one command.
use sbnb.Prelude.{◌≡◌, refl, true}
use sbnb.Json.{Json, int, array, object, nil, cons, Fields, end, field, equals_nat}
use sbnb.Json.Access.{find, has_key}
use sbnb.Compatibility.{validate_manifest}
use sbnb.Compatibility.Accepted.{IsProtocols, validate_manifest-IsProtocols}

abbrev desired_state : Json
desired_state = object (field "versions" (array (cons (int 1) (cons (int 2) nil))) end)

abbrev protocols : Json
protocols =
    object (
      field "desired_state" desired_state (field "commands" (object (field "run" (int 1) end)) end))

abbrev members : Fields
members = field "manifest_version" (int 1) (field "protocols" protocols end)

validate_manifest-IsProtocols_example :
    (object members ≡ object members)
    × (equals_nat (find "manifest_version" members) 1 ≡ true)
    × IsProtocols (find "protocols" members)
unfolding validate_manifest find has_key equals_nat
validate_manifest-IsProtocols_example = validate_manifest-IsProtocols members (object members) refl
