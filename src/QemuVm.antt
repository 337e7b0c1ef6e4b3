-- ===== src/QemuVm.antt =====
-- qemu_vm.py, `QemuVm`: the states of a VM's container and what is prepared before it starts. The
-- host is a state that is passed on; whether each command succeeds is given.
pub mod Command
pub mod Refines
pub mod Settled
pub mod Succeeds
pub mod Resources
use sbnb.Prelude.{
  String, Bool, true, false, not, ◌&&◌, ◌||◌, Option, none, some, List, [], ◌∷◌, ◌++◌, elem,
  is_some, str_eq, if◌then◌else◌,
}
use sbnb.QemuVm.Command.{disk_path, Params, build_qemu_command}

-- The container of the VM's name; docker gives it another status than `running` when it has stopped.
pub record Container : Type 0 where
  pub id : String
  pub is_running : Bool

-- A boot image that was copied, and resized or not.
pub record Host : Type 0 where
  pub container : Option Container
  pub vm_dir_exists : Bool
  pub boot_image : Option Bool
  pub data_disks : List String
  pub bound : List String

-- Which commands succeed; the container's new id, and what a failed start leaves of it; what `lspci` prints of the two vendors and of a
-- device.
pub record World : Type 0 where
  pub removes : Bool
  pub stops : Bool
  pub downloads : Bool
  pub copies : Bool
  pub resizes : Bool
  pub makes_iso : Bool
  pub makes_disk : Bool
  pub runs : Option String
  pub left_behind : Option Container
  pub nvidia : List String
  pub amd : List String
  pub vendor_device : String → Option String

pub data Target : Type 0 where
  present started stopped absent : Target

pub data Gpus : Type 0 where
  no_gpus auto : Gpus
  listed : List String → Gpus

pub record Request : Type 0 where
  pub target : Target
  pub check_mode : Bool
  pub has_tskey : Bool
  pub persist_boot_image : Bool
  pub data_disk_name : Option String
  pub gpus : Gpus
  pub params : Params

-- `result`
pub data VmState : Type 0 where
  absent stopped running would_create : VmState

pub record Report : Type 0 where
  pub changed : Bool
  pub state : VmState
  pub gpus_attached : List String
  pub container_id : Option String
  pub qemu_command : Option String

-- `exit_json` or `fail_json`, and the host after it
pub data Ran {ℓ} (A : Type ℓ) : Type ℓ where
  done : A → Host → Ran A
  fails : Host → Ran A

infixl 10 ◌>>=◌
abbrev pub ◌>>=◌ {ℓ κ} : {A : Type ℓ} {B : Type κ} → Ran A → (A × Host → Ran B) → Ran B
done a h >>= f = f (a, h)
fails h >>= f = fails h

-- a command: the module fails when the command does
abbrev pub command : Bool → Host → Host → Ran Bool
command true before after = done true after
command false before after = fails before

abbrev pub report : Bool → VmState → Option String → Report
report changed state id = record {
  changed = changed;
  state = state;
  gpus_attached = [];
  container_id = id;
  qemu_command = none;
}

-- `prepare_vm_directory` and `download_image`
pub download : World → Host → Ran Bool
download w h = let made = record h { vm_dir_exists = true } in command w.downloads made made

pub copy_image : World → Host → Ran Bool
copy_image w h = do
  (_, copied) ←
      command w.copies (record h { boot_image = none }) (record h { boot_image = some false })
  command w.resizes copied (record copied { boot_image = some true })

-- `prepare_boot_image`
unfoldable pub prepare_boot_image : World → Request → Host → Ran Bool
unfolding copy_image
prepare_boot_image w r h =
    if r.persist_boot_image && is_some h.boot_image then done true h else copy_image w h

-- `detect_gpus`
pub is_text : String → Bool
is_text s = not (str_eq s "")

pub texts : List String → List String
unfolding is_text
texts [] = []
texts (s ∷ names) = let rest = texts names in if is_text s then s ∷ rest else rest

pub chosen_gpus : World → Gpus → List String
unfolding texts
chosen_gpus w no_gpus = []
chosen_gpus w auto = texts (w.nvidia ++ w.amd)
chosen_gpus w (listed gpus) = gpus

-- `bind_to_vfio`; a device that `lspci` does not know is only warned of
pub bind_reply : Option String → Host → Host
bind_reply none h = h
bind_reply (some id) h = record h { bound = id ∷ h.bound }

unfoldable pub bind_each : World → List String → Host → Host
unfolding bind_reply
bind_each w [] h = h
bind_each w (d ∷ devices) h = bind_each w devices (bind_reply (w.vendor_device d) h)

-- `prepare_data_disk`
unfoldable pub prepare_data_disk : World → Params → Option String → Host → Ran (Option String)
unfolding disk_path
prepare_data_disk w p none h = done none h
prepare_data_disk w p (some name) h =
    let made = record h { data_disks = name ∷ h.data_disks } in
    if str_eq name ""
    then done none h
    else if elem name h.data_disks
    then done (some (disk_path p name)) h
    else if w.makes_disk
    then done (some (disk_path p name)) made
    else fails h

-- what is prepared before the start: the files, the devices and the data disk
unfoldable pub prepare : World → Request → Host → Ran (Option String)
unfolding download prepare_boot_image chosen_gpus bind_each prepare_data_disk
prepare w r h = do
  (_, downloaded) ← download w h
  (_, imaged) ← prepare_boot_image w r downloaded
  (_, initialized) ← command w.makes_iso imaged imaged
  prepare_data_disk w r.params r.data_disk_name
      (bind_each w r.params.pcie_devices (bind_each w (chosen_gpus w r.gpus) initialized))

-- `containers.run`: docker refuses a name that a container has, else starts one or leaves what it made
pub start_container : World → Host → Option Container → Ran String
start_container w h (some c) = fails h
start_container w h none = elim w.runs [
  | none ↦ fails (record h { container = w.left_behind })
  | some id ↦ done id (record h { container = some (record { id = id; is_running = true }) })
]

-- the result of a start
pub start_report : World → Request → Option String → String → Report
unfolding build_qemu_command chosen_gpus
start_report w r disk id = record {
  changed = true;
  state = VmState.running;
  gpus_attached = chosen_gpus w r.gpus;
  container_id = some id;
  qemu_command = some (build_qemu_command r.params (chosen_gpus w r.gpus) disk);
}

pub start_prepared : World → Request → Option String × Host → Ran Report
unfolding start_container start_report
start_prepared w r (disk, h) =
    start_container w h h.container >>= (λ x. done (start_report w r disk x.0) x.1)

unfoldable pub create : World → Request → Host → Ran Report
unfolding prepare start_prepared
create w r h = prepare w r h >>= start_prepared w r

-- once nothing of the VM's name is left
pub create_or_predict : World → Request → Host → Ran Report
unfolding create
create_or_predict w r h =
    if r.check_mode then done (report true would_create none) h else create w r h

pub removed_or_kept : World → Request → Host → Ran Bool
removed_or_kept w r h =
    if r.check_mode then done true h else command w.removes h (record h { container = none })

pub present_with : World → Request → Host → Option Container → Ran Report
unfolding create_or_predict removed_or_kept
present_with w r h none = create_or_predict w r h
present_with w r h (some c) =
    let recreating = removed_or_kept w r h >>= (λ x. create_or_predict w r x.1) in
    if c.is_running then done (report false VmState.running (some c.id)) h else recreating

-- `ensure_present`
unfoldable pub ensure_present : World → Request → Host → Ran Report
unfolding present_with
ensure_present w r h = if r.has_tskey then present_with w r h h.container else fails h

pub stop_container : World → Request → Container → Host → Ran Report
stop_container w r c h =
    let halted = record h { container = some (record c { is_running = false }) } in
    if r.check_mode
    then done (report true VmState.stopped (some c.id)) h
    else if w.stops
    then done (report true VmState.stopped (some c.id)) halted
    else fails h

-- `ensure_stopped`
unfoldable pub ensure_stopped : World → Request → Host → Option Container → Ran Report
unfolding stop_container
ensure_stopped w r h none = done (report false VmState.absent none) h
ensure_stopped w r h (some c) =
    let stopping = stop_container w r c h in
    if c.is_running then stopping else done (report false VmState.stopped (some c.id)) h

-- the directory goes with the VM when the boot image is not kept
pub clean_up : Request → Host → Host
clean_up r h =
    if r.persist_boot_image then h else record h { vm_dir_exists = false; boot_image = none }

-- `ensure_absent`
unfoldable pub ensure_absent : World → Request → Host → Option Container → Ran Report
unfolding clean_up
ensure_absent w r h none = done (report false VmState.absent none) h
ensure_absent w r h (some c) =
    if r.check_mode
    then done (report true VmState.absent none) h
    else if w.removes
    then done (report true VmState.absent none) (clean_up r (record h { container = none }))
    else fails h

-- `run`
pub run_target : World → Request → Host → Target → Ran Report
unfolding ensure_present ensure_stopped ensure_absent
run_target w r h present = ensure_present w r h
run_target w r h started = ensure_present w r h
run_target w r h stopped = ensure_stopped w r h h.container
run_target w r h absent = ensure_absent w r h h.container

unfoldable pub run : World → Request → Host → Ran Report
unfolding run_target
run w r h = run_target w r h r.target
