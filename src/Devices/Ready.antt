-- ===== src/Devices/Ready.antt =====
-- What the services ask for once missing devices are dropped (dataplane.py).
use sbnb.Prelude.{
  ap, ◌==◌, ◌∙◌, ℕ, Bool, true, false, not, ◌&&◌, ◌≡◌, refl, Option, none, some, List, [], ◌∷◌,
  arith, Bool-cases, inl, inr, filter, is_some, Option-cases,
}
use sbnb.Prelude.Dict.{Dict}
use sbnb.ApplyResults.Record.{Text}
use sbnb.Devices.{
  is_lower_or_digit, drop_from_services, is_cdi_request, drop_absent_devices, add_missing,
  missing_devices, is_absent, before_colon, is_unavailable, missing_requested_devices, missing_from,
  is_dev_path, drop_unavailable_cdi_devices, drop_when, missing_of,
}

is_ready : (Text → Bool) → List Text → Text → Bool
is_ready exists available d = not (is_some (missing_of exists available d))

-- each service with the devices that are ready
pub ready_only : (Text → Bool) → List Text → Dict (List Text) → Dict (List Text)
unfolding is_ready
ready_only exists available [] = []
ready_only exists available ((name, devices) ∷ services) =
    (name, filter (is_ready exists available) devices) ∷ ready_only exists available services

kept-drop_when :
    (bad : Text → Bool) (ds : List Text) → (drop_when bad ds).0 ≡ filter (λ d. not (bad d)) ds
unfolding drop_when filter
kept-drop_when bad [] = refl
kept-drop_when bad (d ∷ ds) = ground (arith, Bool-cases (bad d), kept-drop_when bad ds)

slash_first : (c : ℕ) (t : Text) → is_dev_path (c ∷ t) ≡ true → c ≡ 47
unfolding is_dev_path
slash_first c [] h = cc
slash_first c (b ∷ []) h = cc
slash_first c (b ∷ d ∷ []) h = cc
slash_first c (b ∷ d ∷ e ∷ []) h = cc
slash_first c (b ∷ d ∷ e ∷ f ∷ t) h = ground arith

-- no device is both a path and a CDI request
path_is_no_cdi : (d : Text) → is_dev_path (before_colon d) ≡ true → is_cdi_request d ≡ false
unfolding before_colon is_dev_path is_cdi_request is_lower_or_digit
path_is_no_cdi [] h = refl
path_is_no_cdi (c ∷ t) h = elim (Bool-cases (c == 58)) [
  | inl e ↦ ground arith
  | inr e ↦ ground (arith, slash_first c (before_colon t) (rw e at h))
]

keeps_ready :
    (exists : Text → Bool) (available : List Text) (d : Text)
    → (not (is_absent exists d) && not (is_unavailable available d)) ≡ is_ready exists available d
unfolding is_absent is_unavailable is_ready missing_of
keeps_ready exists available d = ground (arith, path_is_no_cdi d)

filter-filter :
    (p q r : Text → Bool)
    → ((d : Text) → (p d && q d) ≡ r d)
    → (ds : List Text) → filter q (filter p ds) ≡ filter r ds
unfolding filter
filter-filter p q r h [] = refl
filter-filter p q r h (d ∷ ds) =
    ground (arith, h d, Bool-cases (p d), Bool-cases (q d), filter-filter p q r h ds)

add_none : (o : Option Text) (missing : List Text) → o ≡ none → add_missing o missing ≡ missing
unfolding add_missing
add_none none missing e = refl
add_none (some t) missing e = cc

module _ (exists : Text → Bool) (available : List Text) where
  both_drops :
      (ds : List Text)
      → (drop_when (is_unavailable available) (drop_when (is_absent exists) ds).0).0
        ≡ filter (is_ready exists available) ds
  both_drops ds = rw (kept-drop_when (is_absent exists) ds) (
      kept-drop_when (is_unavailable available) (filter (λ d. not (is_absent exists d)) ds)
      ∙ filter-filter (λ d. not (is_absent exists d)) (λ d. not (is_unavailable available d))
          (is_ready exists available) (keeps_ready exists available) ds)

  ready_after :
      (services : Dict (List Text))
      → (drop_unavailable_cdi_devices available (drop_absent_devices exists services).0).0
        ≡ ready_only exists available services
  unfolding drop_unavailable_cdi_devices drop_absent_devices drop_from_services ready_only
  ready_after [] = refl
  ready_after ((name, devices) ∷ services) = cc (both_drops devices, ready_after services)

  missing-ready :
      (ds missing : List Text)
      → missing_devices exists available (filter (is_ready exists available) ds) missing ≡ missing
  unfolding missing_devices filter is_ready add_missing
  missing-ready [] missing = refl
  missing-ready (d ∷ ds) missing = elim (Option-cases (missing_of exists available d)) [
    | inl e ↦ rw e (
        ap (missing_devices exists available (filter (is_ready exists available) ds))
          (add_none (missing_of exists available d) missing e)
        ∙ missing-ready ds missing)
    | inr (t, e) ↦ rw e (missing-ready ds missing)
  ]

  missing-ready_only :
      (services : Dict (List Text)) (missing : List Text)
      → missing_from exists available (ready_only exists available services) missing ≡ missing
  unfolding missing_from ready_only
  missing-ready_only [] missing = refl
  missing-ready_only ((name, devices) ∷ services) missing =
      rw (missing-ready devices missing, missing_from) (missing-ready_only services missing)

-- Dropping the absent paths and then the unpublished CDI devices leaves each service just the
-- devices that are ready, in their order, and nothing that is asked for is then missing.
pub drops_leave_ready :
    (exists : Text → Bool) (available : List Text) (services : Dict (List Text))
    → let left =
        (drop_unavailable_cdi_devices available (drop_absent_devices exists services).0).0 in
      (left ≡ ready_only exists available services)
      × (missing_requested_devices exists available left ≡ [])
unfolding missing_requested_devices
drops_leave_ready exists available services = (
  ready_after exists available services,
  rw (ready_after exists available services) (missing-ready_only exists available services []),
)
