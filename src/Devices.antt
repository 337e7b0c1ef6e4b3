-- ===== src/Devices.antt =====
-- dataplane.py: the devices that an app's services ask for: which of them are missing, the wait for
-- them, and what is dropped before the app is started. A device is a text, as in the short form of
-- Compose; which paths exist and which CDI resources are published is given.
pub mod Ready
use sbnb.Prelude.{
  ℕ, String, Bool, true, false, not, ◌&&◌, ◌||◌, Option, none, some, List, [], ◌∷◌, ◌++◌, ltb, leb,
  ◌==◌, if◌then◌else◌,
}
use sbnb.Prelude.Dict.{Dict}
use sbnb.ApplyResults.Record.{Text}
use sbnb.ApplyResults.{text_less}

-- `device.split(':', 1)[0]`
pub before_colon : Text → Text
before_colon [] = []
before_colon (c ∷ t) = let rest = before_colon t in if c == 58 then [] else c ∷ rest

-- `startswith('/dev/')`
pub is_dev_path : Text → Bool
is_dev_path (a ∷ b ∷ c ∷ d ∷ e ∷ t) = a == 47 && b == 100 && c == 101 && d == 118 && e == 47
is_dev_path _ = false

-- `_CDI_REQUEST`: a vendor, a slash, a class, an equals sign and a name without one
is_lower_or_digit : ℕ → Bool
is_lower_or_digit c = (leb 97 c && leb c 122) || (leb 48 c && leb c 57)

is_name : Text → Bool
is_name [] = true
is_name (c ∷ t) = let rest = is_name t in if c == 61 then false else rest

name_starts : Text → Bool
unfolding is_name
name_starts [] = false
name_starts (c ∷ t) = is_name (c ∷ t)

class_goes_on : Text → Bool
unfolding name_starts is_lower_or_digit
class_goes_on [] = false
class_goes_on (c ∷ t) =
    let rest = class_goes_on t in
    if c == 61
    then name_starts t
    else if is_lower_or_digit c || c == 95 || c == 46 || c == 45
    then rest
    else false

class_starts : Text → Bool
unfolding class_goes_on is_lower_or_digit
class_starts [] = false
class_starts (c ∷ t) = is_lower_or_digit c && class_goes_on t

vendor_goes_on : Text → Bool
unfolding class_starts is_lower_or_digit
vendor_goes_on [] = false
vendor_goes_on (c ∷ t) =
    let rest = vendor_goes_on t in
    if c == 47
    then class_starts t
    else if is_lower_or_digit c || c == 46 || c == 45
    then rest
    else false

unfoldable pub is_cdi_request : Text → Bool
unfolding vendor_goes_on is_lower_or_digit
is_cdi_request [] = false
is_cdi_request (c ∷ t) = is_lower_or_digit c && vendor_goes_on t

unfoldable pub same_text : Text → Text → Bool
same_text [] [] = true
same_text (c ∷ s) (d ∷ t) = let rest = same_text s t in if c == d then rest else false
same_text _ _ = false

pub is_available : List Text → Text → Bool
unfolding same_text
is_available [] t = false
is_available (a ∷ available) t = same_text a t || is_available available t

-- The loop over the devices of one service: those that are kept, and those that are skipped.
pub drop_when : (Text → Bool) → List Text → List Text × List Text
drop_when bad [] = ([], [])
drop_when bad (d ∷ devices) =
    let (kept, skipped) = drop_when bad devices in
    if bad d then (kept, d ∷ skipped) else (d ∷ kept, skipped)

pub is_absent : (Text → Bool) → Text → Bool
unfolding before_colon is_dev_path
is_absent exists d = is_dev_path (before_colon d) && not (exists (before_colon d))

pub is_unavailable : List Text → Text → Bool
unfolding is_cdi_request is_available
is_unavailable available d = is_cdi_request d && not (is_available available d)

label : (Text → Text) → String → List Text → List (String × Text)
label shown name [] = []
label shown name (d ∷ devices) = (name, shown d) ∷ label shown name devices

drop_from_services :
    (Text → Bool) → (Text → Text) → Dict (List Text) → Dict (List Text) × List (String × Text)
unfolding drop_when label
drop_from_services bad shown [] = ([], [])
drop_from_services bad shown ((name, devices) ∷ services) =
    let (rest, later) = drop_from_services bad shown services in
    let (kept, skipped) = drop_when bad devices in
    ((name, kept) ∷ rest, label shown name skipped ++ later)

-- `_drop_absent_devices`, on the devices of each service
unfoldable pub drop_absent_devices :
    (Text → Bool) → Dict (List Text) → Dict (List Text) × List (String × Text)
unfolding drop_from_services is_absent before_colon
drop_absent_devices exists services = drop_from_services (is_absent exists) before_colon services

-- `_drop_unavailable_cdi_devices`
unfoldable pub drop_unavailable_cdi_devices :
    List Text → Dict (List Text) → Dict (List Text) × List (String × Text)
unfolding drop_from_services is_unavailable
drop_unavailable_cdi_devices available services =
    drop_from_services (is_unavailable available) (λ d. d) services

-- `sorted` of a set of texts
pub add_text : Text → List Text → List Text
unfolding same_text
add_text t [] = t ∷ []
add_text t (x ∷ xs) =
    let rest = add_text t xs in
    if same_text t x then x ∷ xs else if text_less t x then t ∷ x ∷ xs else x ∷ rest

-- what is missing of one device
pub missing_of : (Text → Bool) → List Text → Text → Option Text
unfolding before_colon is_dev_path is_cdi_request is_available
missing_of exists available d =
    if is_dev_path (before_colon d)
    then (if exists (before_colon d) then none else some (before_colon d))
    else if is_cdi_request d && not (is_available available d)
    then some d
    else none

add_missing : Option Text → List Text → List Text
unfolding add_text
add_missing none missing = missing
add_missing (some t) missing = add_text t missing

missing_devices : (Text → Bool) → List Text → List Text → List Text → List Text
unfolding missing_of add_missing
missing_devices exists available [] missing = missing
missing_devices exists available (d ∷ devices) missing =
    missing_devices exists available devices (add_missing (missing_of exists available d) missing)

missing_from : (Text → Bool) → List Text → Dict (List Text) → List Text → List Text
unfolding missing_devices
missing_from exists available [] missing = missing
missing_from exists available ((name, devices) ∷ services) missing =
    missing_from exists available services (missing_devices exists available devices missing)

-- `_missing_requested_devices`
unfoldable pub missing_requested_devices : (Text → Bool) → List Text → Dict (List Text) → List Text
unfolding missing_from
missing_requested_devices exists available services = missing_from exists available services []

-- What a round of the wait meets: the paths, the resources, and whether time remains after it.
pub record Round : Type 0 where
  pub exists : Text → Bool
  pub available : List Text
  pub remains : Bool

wait_on : List Text → Bool → Option (List Text) → Option (List Text)
wait_on [] remains later = some []
wait_on (t ∷ missing) true later = later
wait_on (t ∷ missing) false later = some (t ∷ missing)

-- `_wait_for_requested_devices`; none where the rounds end before the deadline
unfoldable pub wait_for_requested_devices : Dict (List Text) → List Round → Option (List Text)
unfolding wait_on missing_requested_devices
wait_for_requested_devices services [] = none
wait_for_requested_devices services (r ∷ rounds) =
    wait_on (missing_requested_devices r.exists r.available services) r.remains
      (wait_for_requested_devices services rounds)
