-- ===== src/Samples/Disks.antt =====
-- Samples for the provisioning of disks: two disks of 4096-byte sectors, one of which fails to open.
use sbnb.Prelude.{
  false, ap, ◌≢◌, length, arith, ◌≢◌, if◌then◌else◌, ℕ, ◌≤◌, String, ◌≡◌, refl, true, not, none,
  some, List, [], ◌∷◌, ◌++◌, All, str_eq, all,
}
use sbnb.Luks.{
  World, Geometry, ok, open_failed, choose_luks_sector_size, preflight_luks_targets, is_supported,
  suits,
}
use sbnb.Luks.Stack.{Action, provision_luks_stack, opened}
use sbnb.Luks.SectorSize.{IsSafe, chosen_size_best}
use sbnb.Luks.Provision.{unclosed, still_open, failed_closes}
use sbnb.Luks.Preflight.{IsChecked, preflight_first}
use sbnb.Luks.Alike.{IsProvisioned, mapper_paths, provision_luks_stack-IsProvisioned}

abbrev disk : Geometry
disk = record { logical = 512; physical = 4096; size = 8192 }

abbrev world : World
world = record {
  exists = λ t. true;
  getss = λ t.
      some
        (if str_eq t "/dev/mapper/a" then 4096 else if str_eq t "/dev/mapper/b" then 4096 else 512);
  getpbsz = λ t. some 4096;
  getsize64 = λ t. some 8192;
  key_written = true;
  wiped = λ t. true;
  formatted = λ t. true;
  opened = λ t. not (str_eq t "/dev/sdb");
  open_times_out = λ t. false;
  closes = λ m. false;
}

abbrev good : List (String × String)
good = ("/dev/sda", "a") ∷ []

abbrev bad : List (String × String)
bad = ("/dev/sda", "a") ∷ ("/dev/sdb", "b") ∷ []

abbrev before : List Action
before = opened "x" ∷ []

chosen_size_best_example :
    (is_supported 4096 ≡ true)
    × All (IsSafe 4096) (disk ∷ [])
    × ((m : ℕ) → is_supported m ≡ true → All (IsSafe m) (disk ∷ []) → m ≤ 4096)
unfolding choose_luks_sector_size suits all
chosen_size_best_example = chosen_size_best (disk ∷ []) 4096 refl

changed : (provision_luks_stack world true none bad before).0 ≢ before
unfolding provision_luks_stack
changed e = let sizes : 8 ≡ 1 = ap length e in omega (arith, sizes)

-- the close of the first disk's mapper fails
failed_closes_example :
    (unclosed (provision_luks_stack world true none bad before).0 ≡ "x" ∷ [])
    × ((refused : List String) × (still_open (provision_luks_stack world true none bad before).0
          ≡ refused ++ "x" ∷ [])
        × All (λ m. world.closes m ≡ false) refused)
unfolding provision_luks_stack
failed_closes_example = failed_closes world true none bad before open_failed refl

left_open : still_open (provision_luks_stack world true none bad before).0 ≡ "a" ∷ "x" ∷ []
unfolding provision_luks_stack
left_open = refl

preflight_first_example :
    (n : ℕ) × (preflight_luks_targets world bad none ≡ ok n) × IsChecked world bad n
preflight_first_example = preflight_first world true none bad before changed

provision_luks_stack-IsProvisioned_example :
    (n : ℕ) × (preflight_luks_targets world good none ≡ ok n)
    × All (IsProvisioned world n) good
    × ("/dev/mapper/a" ∷ [] ≡ mapper_paths good)
unfolding provision_luks_stack
provision_luks_stack-IsProvisioned_example =
    provision_luks_stack-IsProvisioned world true none good before ("/dev/mapper/a" ∷ []) refl
