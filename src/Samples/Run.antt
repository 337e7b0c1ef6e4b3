-- ===== src/Samples/Run.antt =====
-- Samples for the run of init services, one of which is optional and fails, and for devices.
use sbnb.Prelude.{◌==◌, String, Bool, false, ◌≡◌, List, [], ◌∷◌, str_eq}
use sbnb.Prelude.Dict.{Dict}
use sbnb.Json.{null}
use sbnb.ApplyResults.Record.{Text}
use sbnb.Project.{absent, listed, Service, Compose}
use sbnb.Project.Run.{Commands}
use sbnb.Devices.{drop_absent_devices, drop_unavailable_cdi_devices, missing_requested_devices}
use sbnb.Devices.Ready.{ready_only, drops_leave_ready}

abbrev make : Service
make = record { labels = ("ai.reefy.lifecycle", "init") ∷ []; depends_on = absent; body = null }

abbrev warm : Service
warm = record {
  labels = ("ai.reefy.lifecycle", "init") ∷ ("ai.reefy.optional", "true") ∷ [];
  depends_on = listed ("make" ∷ []);
  body = null;
}

abbrev compose : Compose
compose = record { services = ("warm", warm) ∷ ("make", make) ∷ []; body = null }

abbrev commands : Commands
commands = record { succeeds = λ n. str_eq n "make"; output = λ n. 101 ∷ [] }

abbrev unsigned : String → Service → Bool
unsigned n s = false

-- /dev/dri exists, /dev/kfd does not
abbrev dri : Text
dri = 47 ∷ 100 ∷ 101 ∷ 118 ∷ 47 ∷ 100 ∷ 114 ∷ 105 ∷ []

abbrev kfd : Text
kfd = 47 ∷ 100 ∷ 101 ∷ 118 ∷ 47 ∷ 107 ∷ 102 ∷ 100 ∷ []

abbrev exists : Text → Bool
exists (a ∷ b ∷ c ∷ d ∷ e ∷ f ∷ t) = f == 100
exists _ = false

abbrev asked : Dict (List Text)
asked = ("app", dri ∷ kfd ∷ []) ∷ []

drops_leave_ready_example :
    ((drop_unavailable_cdi_devices [] (drop_absent_devices exists asked).0).0
      ≡ ready_only exists [] asked)
    × (missing_requested_devices exists []
          (drop_unavailable_cdi_devices [] (drop_absent_devices exists asked).0).0
        ≡ [])
drops_leave_ready_example = drops_leave_ready exists [] asked
