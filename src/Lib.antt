-- ===== src/Lib.antt =====
-- Reefy OS: the on-device agent, in board/reefy/reefy/rootfs-overlay/usr/lib/reefy/reefy/.
--
-- The data plane receives desired state, applies it with one worker thread and keeps the result of
-- each request on disk; storage provisions encrypted disks and the volumes of apps; a watchdog restarts the containers that
-- no longer answer. The parts and their files:
--
-- - Json: JSON values as Python holds them, with `get`, `or`, `==`, iteration and truth.
-- - ApplyResults: apply_results.py, `ApplyResultStore`. `Store` holds `_results` and the directory;
--   `create`, `update`, `get`, `fail_interrupted`, `prune` and `load` are its methods, `write` is
--   `_write`. The clock and whether a write succeeds are an `Env`; the redaction is a parameter.
-- - Scheduler: dataplane.py, `DataPlane._submit_apply_job` and `_apply_job_worker`. `submit_locked` is
--   the part under `_job_condition`; `begin_job`, `finish_job` and `next_job` are the worker's loop,
--   cut where other threads may come between. It uses the store of ApplyResults.
-- - Lifecycle: dataplane.py, `_valid_v2_lifecycle`, `_set_project_targets` and
--   `_is_current_app_superseded`, by which a submission tells running workers of newer state.
-- - Watchdog: watchdog.py, `check_service` with `probe` and `find_container`; `after` is a series of
--   runs of the timer.
-- - Luks: storage.py, `_choose_luks_sector_size`, `_preflight_luks_targets`, `_provision_luks_stack`
--   and `_require_common_mapper_sector_size`. What commands answer is a `World`, what is done to the
--   disks is a list of actions.
-- - Volume: storage.py, `_ensure_volume_lv` and what it calls: the creation of an app's logical volume,
--   its mount, its clean-up on failure, its repair and the data in its way. What is done is a list of
--   events; what a command answers may depend on all events before it.
-- - Volume.Boot: storage.py, `boot_mount`, which calls the former for each path before docker starts.
-- - Reclaim: storage.py, `_reclaim_deleted_instance_lvs`. `live_owner_tags` says which apps are live, `seed`
--   adopts volumes, `reclaim_each` is the loop over the volumes.
-- - Cap: storage.py, `_capped_virtual_size` and `_desired_volume_size`, whose result Volume takes. The decimal
--   arithmetic of Python, 28 digits rounded half to even, is `round_digits`.
-- - Project: dataplane.py, from `_service_lifecycle` to `_app_project_plan`: the dependencies between the
--   services of an app, what of them is required, and the order and the run of the init services.
-- - Migration: dataplane.py, `_apply_v2_projects` and what it calls: `migrate` is the hand-off from the legacy
--   Compose project to one project per app, `reconcile_system` what is done without one. How commands
--   end is a function of all events before; the workers of a pool are taken as they complete.
-- - Rollout: dataplane.py, `_pull_project_images` and `_start_project_services`, whose loop `attempts` has the
--   number of attempts as its fuel; Rollout.Failure classifies outputs. Rollout.Project is `_apply_project_compose` and
--   the preparation and start of the system project. The content of a marker's file is read off the log of events.
-- - Redaction: redaction.py. A position in a message is the text from there on; `redact_from` has fuel, and the
--   length of the message and one is enough. Redaction.Written says how nested values are written.
-- - Devices: dataplane.py, `_drop_absent_devices`, `_drop_unavailable_cdi_devices`,
--   `_missing_requested_devices` and `_wait_for_requested_devices`.
-- - Artifacts: artifacts.py, `ArtifactManager.gc`: `sweep` is the loop over manifests, `sweep_blobs` the
--   one over blobs.
-- - QemuVm: collections/ansible_collections/reefy/compute/plugins/modules/qemu_vm.py, class `QemuVm`. `Host` is
--   what a run changes, `World` says which commands succeed; QemuVm.Command is `build_qemu_command`,
--   QemuVm.Resources is `resolve_max_resources`.
-- - Compatibility: compatibility.py, `validate_manifest`.
-- - Containers: containers.py, `resolve_app_container`.
-- - Samples: concrete runs.
--
-- Fuel: `work`, the worker's loop, of which six steps are shown to be enough; `closure_loop`, whose rounds
-- are at most the names ever pushed; `visit`, whose calls nest no deeper than there are pending names;
-- `unit_from`, whose steps are fewer than the number itself; `lcm_from`, which reaches a common multiple at `b` times `a` at the latest.
-- Numbers are natural: times, sizes and counts are never negative here. A negative value that a
-- command or a file could hold is refused or read as the code reads it, or is not modelled.
-- Not modelled: external commands; control.py and the MQTT transport; the downloads and mounts of
-- artifacts.py; the regular expressions of redaction.py; the cloud-init files of qemu_vm.py; the OCI layout
-- builder; logging; and the parts of dataplane.py and storage.py that only call such commands.
pub mod ApplyResults
pub mod Artifacts
pub mod Cap
pub mod Compatibility
pub mod Containers
pub mod Devices
pub mod Json
pub mod Lifecycle
pub mod Luks
pub mod Migration
pub mod Prelude
pub mod Project
pub mod QemuVm
pub mod Reclaim
pub mod Redaction
pub mod Rollout
pub mod Samples
pub mod Scheduler
pub mod Volume
pub mod Watchdog
