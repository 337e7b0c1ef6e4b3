-- ===== src/Samples/Vm.antt =====
-- Concrete runs of qemu_vm.py.
use sbnb.Prelude.{elem, true, false, ◌≡◌, refl, none, some, [], ◌∷◌}
use sbnb.QemuVm.Command.{Params}
use sbnb.QemuVm.{Host, World, Target, Gpus, Request, VmState, Report, Ran, done, fails, run}
use sbnb.QemuVm.Refines.{Implements, run-Implements}
use sbnb.QemuVm.Settled.{LeavesAlone, Predicts, second_run_settles, run-Predicts}
use sbnb.QemuVm.Succeeds.{succeeds, run_succeeds}

abbrev parameters : Params
parameters = record {
  mac_address = "52:54:00:0a:0b:0c";
  bridge = "br0";
  use_standard_qemu = true;
  disable_kvm = false;
  mem_prealloc = false;
  confidential_computing = false;
  vcpu = "2";
  mem = "4G";
  boot_image = "/data/images/vm/vm.qcow2";
  seed_iso = "/data/images/vm/seed-vm.iso";
  data_dir = "/data/data";
  pcie_devices = "02:00.0" ∷ [];
}

abbrev willing : World
willing = record {
  removes = true;
  stops = true;
  downloads = true;
  copies = true;
  resizes = true;
  makes_iso = true;
  makes_disk = true;
  runs = some "c2";
  left_behind = none;
  nvidia = "01:00.0" ∷ [];
  amd = [];
  vendor_device = λ address. some "10de 2204";
}

abbrev wanted : Request
wanted = record {
  target = Target.present;
  check_mode = false;
  has_tskey = true;
  persist_boot_image = true;
  data_disk_name = some "state";
  gpus = Gpus.auto;
  params = parameters;
}

-- a VM that has stopped
abbrev halted : Host
halted = record {
  container = some (record { id = "c1"; is_running = false });
  vm_dir_exists = true;
  boot_image = none;
  data_disks = [];
  bound = [];
}

abbrev ended_report : Ran Report → Report
ended_report (done r h) = r
ended_report (fails h) = record {
  changed = false;
  state = VmState.absent;
  gpus_attached = [];
  container_id = none;
  qemu_command = none;
}

abbrev ended_host : Ran Report → Host
ended_host (done r h) = h
ended_host (fails h) = h

starts_recreated : (ended_report (run willing wanted halted)).container_id ≡ some "c2"
unfolding run elem
starts_recreated = refl

run-Implements_example : Implements VmState.stopped VmState.running (run willing wanted halted)
run-Implements_example = run-Implements willing wanted halted refl

second_run_settles_example :
    LeavesAlone
      (ended_host (run willing wanted halted))
      (run willing wanted (ended_host (run willing wanted halted)))
unfolding run elem
second_run_settles_example =
    second_run_settles willing willing wanted halted (ended_host (run willing wanted halted))
      (ended_report (run willing wanted halted)) refl refl

run-Predicts_example :
    Predicts VmState.running halted (run willing (record wanted { check_mode = true }) halted)
run-Predicts_example = run-Predicts willing (record wanted { check_mode = true }) halted refl refl

run_succeeds_example : succeeds (run willing wanted halted) ≡ true
run_succeeds_example = run_succeeds willing wanted halted refl refl
