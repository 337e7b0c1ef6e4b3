-- ===== src/Samples.antt =====
-- Each theorem of the library's results at a concrete input where its hypotheses hold.
mod Results
mod Apply
mod State
mod Disks
mod Recovery
mod Volumes
mod Compose
mod Run
mod Store
mod Manifest
mod Terminal
mod Handoff
mod Storage
mod Vm
mod Pulls
mod Redact
