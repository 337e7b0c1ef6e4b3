-- ===== src/Luks/Alike.antt =====
-- What the provisioning of a batch of disks gives when it succeeds (storage.py).
use sbnb.Prelude.{
  ℕ, String, Bool, true, false, ◌≡◌, refl, ap, ◌∙◌, Option, some, List, [], ◌∷◌, arith, inl, inr,
  Bool-cases, All,
}
use sbnb.Luks.{World, Result, ok, err, preflight_luks_targets}
use sbnb.Luks.Stack.{
  Action, write_keyfile, wipe, format, opened, mapper_path, Progress, fail, with_path, check_mapper,
  settle_on, provision_after, provision_each, settle, provision_at, provision_luks_stack,
}

-- what a success says of each target
abbrev pub IsProvisioned : World → ℕ → String × String → Type 0
IsProvisioned w n (target, mapper) =
    (w.formatted target ≡ true) × (w.opened target ≡ true) × (w.getss (mapper_path mapper) ≡ some n)

abbrev pub mapper_paths : List (String × String) → List String
mapper_paths [] = []
mapper_paths ((target, mapper) ∷ ts) = mapper_path mapper ∷ mapper_paths ts

with_path_ok :
    (path : String) (r : Result (List String)) (ps : List String)
    → with_path path r ≡ ok ps
    → (qs : List String) × (r ≡ ok qs) × (ps ≡ path ∷ qs)
unfolding with_path
with_path_ok path (ok qs) ps h = (qs, refl, ground arith)
with_path_ok path (err e) ps h = cc

check_mapper_ok :
    (w : World) (n : ℕ) (mapper : String) (rest : Progress) (actions : List Action)
    (names ps : List String)
    → (check_mapper w n mapper rest actions names).result ≡ ok ps
    → (w.getss (mapper_path mapper) ≡ some n) × (with_path (mapper_path mapper) rest.result ≡ ok ps)
unfolding check_mapper fail
check_mapper_ok w n mapper rest actions names ps h = ground arith

each_ok :
    (w : World) (n : ℕ) (target mapper : String) (targets : List (String × String))
    (actions : List Action) (names ps : List String)
    → (provision_each w n ((target, mapper) ∷ targets) actions names).result ≡ ok ps
    → (w.formatted target ≡ true)
      × (w.opened target ≡ true)
      × ((check_mapper w n mapper
            (provision_each w n targets
              (opened mapper ∷ format target n ∷ wipe target ∷ actions)
              (mapper ∷ names))
            (opened mapper ∷ format target n ∷ wipe target ∷ actions)
            (mapper ∷ names)).result
          ≡ ok ps)
unfolding provision_each fail
each_ok w n target mapper targets actions names ps h = ground arith

provisioned :
    (w : World) (n : ℕ) (targets : List (String × String)) (actions : List Action)
    (names ps : List String)
    → (provision_each w n targets actions names).result ≡ ok ps
    → All (IsProvisioned w n) targets × (ps ≡ mapper_paths targets)
unfolding provision_each fail
provisioned w n [] actions names ps h = (tt, ground arith)
provisioned w n ((target, mapper) ∷ targets) actions names ps h =
    let later : List Action = opened mapper ∷ format target n ∷ wipe target ∷ actions in
    let (formatted, is_open, checked) = each_ok w n target mapper targets actions names ps h in
    let rest = provision_each w n targets later (mapper ∷ names) in
    let (size, listed) = check_mapper_ok w n mapper rest later (mapper ∷ names) ps checked in
    let (qs, done, same) = with_path_ok (mapper_path mapper) rest.result ps listed in
    let (others, tail) = provisioned w n targets later (mapper ∷ names) qs done in
    (
      ((formatted, is_open, size), others),
      same ∙ ap (λ (l : List String). mapper_path mapper ∷ l) tail,
    )

ok_of_settle_on :
    (w : World) (r : Result (List String)) (p : Progress) (ps : List String)
    → (settle_on w r p).1 ≡ ok ps
    → r ≡ ok ps
unfolding settle_on
ok_of_settle_on w (ok qs) p ps h = h
ok_of_settle_on w (err e) p ps h = cc

ok_of_settle :
    (w : World) (p : Progress) (ps : List String) → (settle w p).1 ≡ ok ps → p.result ≡ ok ps
unfolding settle
ok_of_settle w p ps h = ok_of_settle_on w p.result p ps h

provision_at-IsProvisioned :
    (w : World) (keyfile : Bool) (targets : List (String × String)) (actions : List Action) (n : ℕ)
    (ps : List String)
    → (provision_at w keyfile targets actions n).1 ≡ ok ps
    → All (IsProvisioned w n) targets × (ps ≡ mapper_paths targets)
unfolding provision_at settle
provision_at-IsProvisioned w false targets actions n ps h =
    provisioned w n targets actions [] ps
      (ok_of_settle w (provision_each w n targets actions []) ps h)
provision_at-IsProvisioned w true targets actions n ps h = elim (Bool-cases w.key_written) [
  | inr k ↦ cc (rw k at h)
  | inl k ↦
      provisioned w n targets (write_keyfile ∷ actions) [] ps
        (ok_of_settle w (provision_each w n targets (write_keyfile ∷ actions) []) ps (rw k at h))
]

provision_after-IsProvisioned :
    (w : World) (keyfile : Bool) (targets : List (String × String)) (actions : List Action)
    (r : Result ℕ) (ps : List String)
    → (provision_after w keyfile targets actions r).1 ≡ ok ps
    → (n : ℕ) × (r ≡ ok n) × All (IsProvisioned w n) targets × (ps ≡ mapper_paths targets)
unfolding provision_after
provision_after-IsProvisioned w keyfile targets actions (err e) ps h = cc
provision_after-IsProvisioned w keyfile targets actions (ok n) ps h =
    let (each, order) = provision_at-IsProvisioned w keyfile targets actions n ps h in
    (n, refl, each, order)

-- A batch that is provisioned has one sector size, which the preflight chose: every disk was
-- formatted and opened, every mapper reads that size, and the paths come in the batch's order.
pub provision_luks_stack-IsProvisioned :
    (w : World) (keyfile : Bool) (required : Option ℕ) (targets : List (String × String))
    (actions : List Action) (ps : List String)
    → (provision_luks_stack w keyfile required targets actions).1 ≡ ok ps
    → (n : ℕ) × (preflight_luks_targets w targets required ≡ ok n)
      × All (IsProvisioned w n) targets
      × (ps ≡ mapper_paths targets)
unfolding provision_luks_stack
provision_luks_stack-IsProvisioned w keyfile required targets actions ps h =
    provision_after-IsProvisioned w keyfile targets actions
      (preflight_luks_targets w targets required) ps h
