-- ===== src/Luks/Preflight.antt =====
-- The checks that come before the first disk of a batch is wiped (storage.py).
use sbnb.Prelude.{
  not, ℕ, String, Bool, true, false, ◌≡◌, ◌≢◌, refl, Option, List, [], ◌∷◌, arith, all, All,
}
use sbnb.Luks.{
  World, Geometry, Result, ok, err, Error, refuse, ◌>>=◌, ◌>>◌, has_duplicate, paths, mappers,
  read_geometries, choose_luks_sector_size, preflight_luks_targets, candidates_of, no_targets,
  no_devices, duplicate_target, duplicate_mapper, missing_device,
}
use sbnb.Luks.Stack.{Action, provision_after, provision_luks_stack}
use sbnb.Luks.SectorSize.{IsSafe, first_suiting-IsSafe}

-- a batch that may be formatted with sectors of size n
pub record IsChecked (w : World) (targets : List (String × String)) (n : ℕ) : Type 0 where
  pub present : all w.exists (paths targets) ≡ true
  pub paths_differ : has_duplicate (paths targets) ≡ false
  pub mappers_differ : has_duplicate (mappers targets) ≡ false
  pub geometries :
      (gs : List Geometry) × (read_geometries w (paths targets) ≡ ok gs) × All (IsSafe n) gs

passed :
    (b : Bool) (e : Error) (k : Result ℕ) (n : ℕ)
    → (refuse b e >> k) ≡ ok n
    → (b ≡ false) × (k ≡ ok n)
passed true e k n h = cc
passed false e k n h = (refl, h)

choose_luks_sector_size-IsSafe :
    (gs : List Geometry) (required : Option ℕ) (n : ℕ)
    → choose_luks_sector_size gs required ≡ ok n
    → All (IsSafe n) gs
unfolding choose_luks_sector_size
choose_luks_sector_size-IsSafe [] required n h = tt
choose_luks_sector_size-IsSafe (g ∷ gs) required n h =
    (first_suiting-IsSafe (candidates_of required) (g ∷ gs) n h).1

chosen_of_read :
    (r : Result (List Geometry)) (required : Option ℕ) (n : ℕ)
    → (r >>= λ gs. choose_luks_sector_size gs required) ≡ ok n
    → (gs : List Geometry) × (r ≡ ok gs) × All (IsSafe n) gs
chosen_of_read (err e) required n h = cc
chosen_of_read (ok gs) required n h = (gs, refl, choose_luks_sector_size-IsSafe gs required n h)

preflight-IsChecked :
    (w : World) (targets : List (String × String)) (required : Option ℕ) (n : ℕ)
    → preflight_luks_targets w targets required ≡ ok n
    → IsChecked w targets n
unfolding preflight_luks_targets
preflight-IsChecked w targets required n h =
    let a = passed (no_targets targets) no_devices _ n h in
    let b = passed _ duplicate_target _ n a.1 in
    let c = passed _ duplicate_mapper _ n b.1 in
    let d = passed (not (all w.exists (paths targets))) missing_device _ n c.1 in
    record {
      present = ground (arith, d.0);
      paths_differ = b.0;
      mappers_differ = c.0;
      geometries = chosen_of_read (read_geometries w (paths targets)) required n d.1;
    }

touched :
    (w : World) (keyfile : Bool) (targets : List (String × String)) (actions : List Action)
    (r : Result ℕ)
    → (provision_after w keyfile targets actions r).0 ≢ actions
    → (n : ℕ) × (r ≡ ok n)
unfolding provision_after
touched w keyfile targets actions (err e) h = absurd (h refl)
touched w keyfile targets actions (ok n) h = (n, refl)

-- If a provisioning writes the key, wipes, formats, opens or closes anything at all, then the
-- preflight gave a sector size, every disk was present, no disk or mapper was named twice, and that
-- size is safe for the geometry of each disk.
pub preflight_first :
    (w : World) (keyfile : Bool) (required : Option ℕ) (targets : List (String × String))
    (actions : List Action)
    → (provision_luks_stack w keyfile required targets actions).0 ≢ actions
    → (n : ℕ) × (preflight_luks_targets w targets required ≡ ok n) × IsChecked w targets n
unfolding provision_luks_stack
preflight_first w keyfile required targets actions h =
    let (n, e) = touched w keyfile targets actions (preflight_luks_targets w targets required) h in
    (n, e, preflight-IsChecked w targets required n e)
