-- ===== src/QemuVm/Succeeds.antt =====
-- qemu_vm.py: a run on which every command succeeds.
use mathlib.Core.Bool.{true≢false}
use sbnb.Prelude.{
  ◌&&◌, is_some, String, Bool, true, false, ◌≡◌, refl, sym, ap, ◌∙◌, Option, none, some, List, [],
  ◌∷◌, arith, Bool-cases, Option-cases, inl, inr,
}
use sbnb.QemuVm.{
  start_container, start_report, bind_reply, bind_each, command, chosen_gpus, prepare_boot_image,
  copy_image, chosen_gpus, bind_each, Container, Host, World, Target, Request, Ran, done, fails,
  ◌>>=◌, command, download, copy_image, prepare_boot_image, prepare_data_disk, prepare,
  start_prepared, create, create_or_predict, removed_or_kept, present_with, ensure_present,
  stop_container, ensure_stopped, ensure_absent, run_target, run,
}

abbrev pub succeeds {ℓ} : {A : Type ℓ} → Ran A → Bool
succeeds (done a h) = true
succeeds (fails h) = false

-- every command succeeds
abbrev pub obliges : World → Bool
obliges w =
    w.removes
    && w.stops
    && w.downloads
    && w.copies
    && w.resizes
    && w.makes_iso
    && w.makes_disk
    && is_some w.runs

runs_some : (w : World) → obliges w ≡ true → is_some w.runs ≡ true
runs_some w e = ground arith

-- No container of the name is there.
abbrev IsFree : Host → Type 0
IsFree h = h.container ≡ none

-- It ends well, without a container of the name.
abbrev Frees : {A : Type 0} → Ran A → Type 0
Frees (done a h) = IsFree h
Frees (fails h) = true ≡ false

Frees-bind :
    {A : Type 0} {B : Type 0} (x : Ran A) (f : A × Host → Ran B)
    → Frees x
    → ((y : A × Host) → IsFree y.1 → Frees (f y))
    → Frees (x >>= f)
Frees-bind (done a h) f e k = k (a, h) e
Frees-bind (fails h) f e k = absurd (true≢false e)

succeeds-bind :
    {A : Type 0} {B : Type 0} (x : Ran A) (f : A × Host → Ran B)
    → Frees x
    → ((y : A × Host) → IsFree y.1 → succeeds (f y) ≡ true)
    → succeeds (x >>= f) ≡ true
succeeds-bind (done a h) f e k = k (a, h) e
succeeds-bind (fails h) f e k = absurd (true≢false e)

Frees-command : (b : Bool) (g h : Host) → b ≡ true → IsFree h → Frees (command b g h)
Frees-command true g h e f = f
Frees-command false g h e f = absurd (true≢false (sym e))

container_after_reply : (o : Option String) (h : Host) → (bind_reply o h).container ≡ h.container
unfolding bind_reply
container_after_reply none h = refl
container_after_reply (some id) h = refl

module _ (w : World) (r : Request) (all_well : obliges w ≡ true) where
  container-bind_each :
      (devices : List String) (h : Host) → (bind_each w devices h).container ≡ h.container
  unfolding bind_each
  container-bind_each [] h = refl
  container-bind_each (d ∷ devices) h =
      container-bind_each devices (bind_reply (w.vendor_device d) h)
      ∙ container_after_reply (w.vendor_device d) h

  Frees-download : (h : Host) → IsFree h → Frees (download w h)
  unfolding download
  Frees-download h f = Frees-command w.downloads _ _ (ground arith) f

  Frees-prepare_boot_image : (h : Host) → IsFree h → Frees (prepare_boot_image w r h)
  unfolding prepare_boot_image copy_image
  Frees-prepare_boot_image h f = elim (Bool-cases (r.persist_boot_image && is_some h.boot_image)) [
    | inl e ↦ rw e f
    | inr e ↦ rw e (
        Frees-bind _ _ (Frees-command w.copies _ _ (ground arith) f)
          (λ y g. Frees-command w.resizes _ _ (ground arith) g))
  ]

  Frees-prepare_data_disk :
      (name : Option String) (h : Host) → IsFree h → Frees (prepare_data_disk w r.params name h)
  unfolding prepare_data_disk
  Frees-prepare_data_disk none h f = f
  Frees-prepare_data_disk (some name) h f = ground (arith, f)

  Frees-prepare : (h : Host) → IsFree h → Frees (prepare w r h)
  unfolding prepare
  Frees-prepare h f = Frees-bind (download w h) _ (Frees-download h f) (λ d df.
      Frees-bind (prepare_boot_image w r d.1) _ (Frees-prepare_boot_image d.1 df) (λ i g.
        Frees-bind (command w.makes_iso i.1 i.1) _
          (Frees-command w.makes_iso i.1 i.1 (ground arith) g)
          (λ c e.
            Frees-prepare_data_disk r.data_disk_name
              (bind_each w r.params.pcie_devices (bind_each w (chosen_gpus w r.gpus) c.1))
              (container-bind_each r.params.pcie_devices (bind_each w (chosen_gpus w r.gpus) c.1)
                ∙ container-bind_each (chosen_gpus w r.gpus) c.1
                ∙ e))))

  succeeds-start_container :
      (disk : Option String) (h : Host) (c : Option Container)
      → c ≡ none
      → succeeds (start_container w h c >>= (λ x. done (start_report w r disk x.0) x.1)) ≡ true
  unfolding start_container
  succeeds-start_container disk h (some c) e = cc
  succeeds-start_container disk h none e = elim (Option-cases w.runs) [
    | inl o ↦
        absurd (true≢false (sym (runs_some w all_well) ∙ ap (λ (x : Option String). is_some x) o))
    | inr (id, o) ↦ rw o refl
  ]

  succeeds-create : (h : Host) → IsFree h → succeeds (create w r h) ≡ true
  unfolding create start_prepared
  succeeds-create h f =
      succeeds-bind (prepare w r h) (start_prepared w r) (Frees-prepare h f)
        (λ y g. succeeds-start_container y.0 y.1 y.1.container g)

  -- nothing is needed of a host that is only looked at
  succeeds-create_or_predict :
      (h : Host) → (r.check_mode ≡ false → IsFree h) → succeeds (create_or_predict w r h) ≡ true
  unfolding create_or_predict
  succeeds-create_or_predict h f = elim (Bool-cases r.check_mode) [
    | inl e ↦ rw e refl
    | inr e ↦ rw e (succeeds-create h (f e))
  ]

  succeeds-recreate :
      (h : Host) → succeeds (removed_or_kept w r h >>= (λ x. create_or_predict w r x.1)) ≡ true
  unfolding removed_or_kept
  succeeds-recreate h = elim (Bool-cases r.check_mode) [
    | inl e ↦ simp e (succeeds-create_or_predict h (λ n. absurd (true≢false (sym e ∙ n))))
    | inr e ↦ simp e (
        succeeds-bind _ (λ x. create_or_predict w r x.1)
          (Frees-command w.removes h (record h { container = none }) (ground arith) refl)
          (λ y g. succeeds-create_or_predict y.1 (λ n. g)))
  ]

  succeeds-present :
      (h : Host) (c : Option Container) → h.container ≡ c → succeeds (present_with w r h c) ≡ true
  unfolding present_with
  succeeds-present h none e = succeeds-create_or_predict h (λ n. e)
  succeeds-present h (some c) e = ground (arith, succeeds-recreate h)

  succeeds-stopped : (h : Host) (c : Option Container) → succeeds (ensure_stopped w r h c) ≡ true
  unfolding ensure_stopped stop_container
  succeeds-stopped h none = refl
  succeeds-stopped h (some c) = ground arith

  succeeds-absent : (h : Host) (c : Option Container) → succeeds (ensure_absent w r h c) ≡ true
  unfolding ensure_absent
  succeeds-absent h none = refl
  succeeds-absent h (some c) = ground arith

  succeeds-target :
      (h : Host) (t : Target) → r.has_tskey ≡ true → succeeds (run_target w r h t) ≡ true
  unfolding run_target ensure_present
  succeeds-target h Target.present k = rw k (succeeds-present h h.container refl)
  succeeds-target h Target.started k = rw k (succeeds-present h h.container refl)
  succeeds-target h Target.stopped k = succeeds-stopped h h.container
  succeeds-target h Target.absent k = succeeds-absent h h.container

-- When every command succeeds and the key is given, a run ends well, whatever its target and
-- whatever state the VM is in.
pub run_succeeds :
    (w : World) (r : Request) (h : Host)
    → obliges w ≡ true
    → r.has_tskey ≡ true
    → succeeds (run w r h) ≡ true
unfolding run
run_succeeds w r h all_well key = succeeds-target w r all_well h r.target key
