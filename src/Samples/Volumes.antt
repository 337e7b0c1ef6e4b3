-- ===== src/Samples/Volumes.antt =====
-- Samples for the volumes of apps: a machine without the volume, whose new file system cannot be
-- made, and one on which the volume is there and can be mounted.
use sbnb.Prelude.{All, none, Bool, true, false, ◌≡◌, refl, some, List, [], ◌∷◌}
use sbnb.Volume.Boot.{State, Machine, version_1, boot_mount}
use sbnb.Volume.Boot.Creates.{IsCautious, boot_creates_with_care}
use sbnb.Cap.{capped_virtual_size, decimal}
use sbnb.Cap.Bounds.{IsCap, capped_size-IsCap}
use sbnb.Volume.{is_absent, code, not_mounted, Event, created, removed, World, Request}
use sbnb.Volume.Mounting.{ensure_volume_lv}
use sbnb.Volume.Mounting.Untouched.{harmless, existing_untouched}
use sbnb.Volume.Mounting.Cleanup.{is_clean, failure_leaves_no_volume}
use sbnb.Volume.Mounting.Capped.{IsCapped, true_means_capped}
use sbnb.Volume.Mounting.Owned.{IsMounted, owned_never_falls_back}

abbrev is_present : List Event → Bool
is_present [] = false
is_present (created ∷ es) = true
is_present (removed ∷ es) = false
is_present (e ∷ es) = is_present es

abbrev fresh : World
fresh = record {
  findmnt = λ es. not_mounted;
  lv_metadata = λ es. some (is_present es);
  desired_size = some 100;
  virtual_size = λ es. some 100;
  lvcreate = code 0;
  mkfs = code 1;
  umount = code 0;
  lvchange = code 0;
  mount = λ es. code 0;
  xfs_repair = λ es. code 0;
  tags = λ es. some (true, true);
  has_data = false;
  is_xfs = true;
  marker_made = true;
  docker_stopped = true;
  rename_succeeds = true;
  makedirs_succeeds = true;
}

abbrev there : World
there = record fresh { lv_metadata = λ es. some true; mkfs = code 0 }

abbrev request : Request
request = record {
  has_thin_pool = true;
  capped = true;
  allow_create = true;
  expect_existing = false;
  recover_fallback = false;
  valid_path = true;
  managed_name = true;
  has_node = true;
  has_xfs_repair = true;
  is_link = false;
}

abbrev owned_request : Request
owned_request = record request { expect_existing = true }

existing_untouched_example : harmless (ensure_volume_lv there request).0 ≡ true
unfolding is_absent
existing_untouched_example = existing_untouched there request refl

failure_leaves_no_volume_example : is_clean (ensure_volume_lv fresh request).0 ≡ true
unfolding ensure_volume_lv
failure_leaves_no_volume_example = failure_leaves_no_volume fresh request refl

true_means_capped_example : IsCapped there
unfolding ensure_volume_lv
true_means_capped_example = true_means_capped there request refl refl

owned_never_falls_back_example : IsMounted there
unfolding ensure_volume_lv
owned_never_falls_back_example = owned_never_falls_back there owned_request true refl refl

-- a product of more than 28 digits, which is rounded up past the exact percentage
rounded_up :
    capped_virtual_size 91821542080955 (decimal 1226468162841801 14) 1 1 ≡ some 11261619802533
unfolding capped_virtual_size
rounded_up = refl

-- a cap of 2.5 percent
capped_size-IsCap_example : IsCap 1000000 25 1 512 4096 24576
unfolding capped_virtual_size
capped_size-IsCap_example = capped_size-IsCap 1000000 25 1 512 4096 24576 refl

-- a machine at boot whose LVs cannot be listed, with one managed path
abbrev machine : Machine
machine = record {
  names = none;
  storage_pool = "reefy_pool";
  volume_lv_name = λ path. "reefy_backup_0123456789ab";
  site = λ path. fresh;
  call = λ path. request;
  is_dedicated = λ path. false;
}

abbrev boot_state : State
boot_state = record {
  app_paths = [];
  caps = "/mnt/reefy-data/apps/u1/media" ∷ [];
  backup_paths = [];
}

boot_creates_with_care_example :
    All (IsCautious machine boot_state) (boot_mount machine (version_1 boot_state))
boot_creates_with_care_example = boot_creates_with_care machine (version_1 boot_state)
