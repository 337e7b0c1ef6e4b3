-- ===== src/QemuVm/Command.antt =====
-- qemu_vm.py, `QemuVm.build_qemu_command`.
use Prim.Native.String.{◌++◌ as str_append}
use sbnb.Prelude.{none, some, Option, String, Bool, true, false, List, [], ◌∷◌, ◌++◌, if◌then◌else◌}

-- The parameters of the command, with the MAC address of the VM's name.
pub record Params : Type 0 where
  pub mac_address : String
  pub bridge : String
  pub use_standard_qemu : Bool
  pub disable_kvm : Bool
  pub mem_prealloc : Bool
  pub confidential_computing : Bool
  pub vcpu : String
  pub mem : String
  pub boot_image : String
  pub seed_iso : String
  pub data_dir : String
  pub pcie_devices : List String

pub cat : List String → String
cat [] = ""
cat (s ∷ parts) = str_append s (cat parts)

-- the path of a data disk
unfoldable pub disk_path : Params → String → String
unfolding cat
disk_path p name = cat (p.data_dir ∷ "/" ∷ name ∷ ".qcow2" ∷ [])

pub accel_opts : Bool → List String
accel_opts true = "-accel" ∷ "tcg" ∷ []
accel_opts false = "-enable-kvm" ∷ []

pub cpu_opts : Bool → List String
cpu_opts true = "-cpu" ∷ "qemu64" ∷ []
cpu_opts false = "-cpu" ∷ "host" ∷ []

pub smp : Params → String → List String
smp p scsi =
    "-smp" ∷ p.vcpu ∷ "-object" ∷ "iothread,id=iothread0" ∷ "-device" ∷ scsi ∷ "-nographic"
    ∷ "-serial" ∷ "mon:stdio" ∷ []

pub program : Params → List String
unfolding accel_opts cpu_opts smp
program p =
    if p.use_standard_qemu
    then ("mkdir -p /etc/qemu &&"
        ∷ "echo \"allow all\" > /etc/qemu/bridge.conf &&"
        ∷ "/usr/bin/qemu-system-x86_64"
        ∷ (accel_opts p.disable_kvm
            ++ cpu_opts p.disable_kvm
            ++ smp p "virtio-scsi-pci,id=scsi0,iothread=iothread0"))
    else ("mkdir -p /usr/qemu-svsm/etc/qemu &&"
        ∷ "echo \"allow all\" > /usr/qemu-svsm/etc/qemu/bridge.conf &&"
        ∷ "/usr/qemu-svsm/bin/qemu-system-x86_64"
        ∷ (accel_opts p.disable_kvm
            ++ cpu_opts p.disable_kvm
            ++ smp p
                "virtio-scsi-pci,id=scsi0,disable-legacy=on,iommu_platform=on,iothread=iothread0"))

pub boot_disk : Params → List String
unfolding cat
boot_disk p =
    "-drive"
    ∷ cat ("file=" ∷ p.boot_image ∷ ",if=none,id=disk0,format=qcow2,snapshot=off,cache=none" ∷ [])
    ∷ "-device"
    ∷ "scsi-hd,drive=disk0,bus=scsi0.0,lun=0,bootindex=0"
    ∷ "-cdrom"
    ∷ p.seed_iso
    ∷ []

pub data_disk : Option String → List String
unfolding cat
data_disk none = []
data_disk (some path) =
    "-drive"
    ∷ cat ("file=" ∷ path ∷ ",if=none,id=datadisk0,format=qcow2,snapshot=off,cache=none" ∷ [])
    ∷ "-device"
    ∷ "scsi-hd,drive=datadisk0,bus=scsi0.0,lun=1,serial=reefy-data-disk"
    ∷ []

pub network : Params → List String
unfolding cat
network p =
    "-device"
    ∷ cat ("virtio-net-pci,netdev=net0,mac=" ∷ p.mac_address ∷ [])
    ∷ "-netdev"
    ∷ cat ("bridge,id=net0,br=" ∷ p.bridge ∷ [])
    ∷ []

pub memory : Params → List String
unfolding cat
memory p =
    if p.confidential_computing
    then ("-machine"
        ∷ "q35,confidential-guest-support=sev0,memory-backend=ram1,igvm-cfg=igvm0"
        ∷ "-object"
        ∷ cat (
            "memory-backend-memfd,id=ram1,size=" ∷ p.mem
            ∷ ",share=true,prealloc=false,reserve=false" ∷ [])
        ∷ "-object"
        ∷ "sev-snp-guest,id=sev0,cbitpos=51,reduced-phys-bits=1"
        ∷ [])
    else ("-machine"
        ∷ "q35"
        ∷ "-m"
        ∷ p.mem
        ∷ "-bios"
        ∷ "/usr/share/ovmf/OVMF.fd"
        ∷ (if p.mem_prealloc then "-mem-prealloc" ∷ [] else []))

-- a device that is passed through
abbrev pub host_option : String → String
host_option address = str_append "vfio-pci,host=" address

pub passed_through : List String → List String
passed_through [] = []
passed_through (d ∷ devices) = "-device" ∷ host_option d ∷ passed_through devices

-- `cmd_parts`
unfoldable pub cmd_parts : Params → List String → Option String → List String
unfolding program boot_disk data_disk network memory passed_through
cmd_parts p gpus disk =
    program p
    ++ boot_disk p
    ++ data_disk disk
    ++ network p
    ++ memory p
    ++ passed_through gpus
    ++ passed_through p.pcie_devices

-- `' '.join(parts)`
pub join_from : String → List String → String
join_from s [] = s
join_from s (t ∷ parts) = str_append s (str_append " " (join_from t parts))

pub join : List String → String
unfolding join_from
join [] = ""
join (s ∷ parts) = join_from s parts

-- `build_qemu_command`
unfoldable pub build_qemu_command : Params → List String → Option String → String
unfolding cmd_parts join
build_qemu_command p gpus disk = join (cmd_parts p gpus disk)
