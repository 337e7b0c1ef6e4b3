-- ===== src/Samples/Terminal.antt =====
-- Samples for the choice of a container: the desired one is not up yet, the legacy one runs.
use sbnb.Prelude.{String, Bool, none, some, [], ◌∷◌, str_eq}
use sbnb.Json.{int}
use sbnb.Containers.{State}

abbrev state : State
state = record {
  schema_version = int 2;
  apps = record { instance_uuid = some "i"; project_name = some "p"; primary_service = none } ∷ [];
}

abbrev is_up : String → Bool
is_up name = str_eq name "state-i-1"
