-- ===== src/QemuVm/Settled.antt =====
-- qemu_vm.py: a second run of the module, a run in check mode, and a run on which every command succeeds.
use sbnb.Prelude.{
  ap, subst, Bool, true, false, ◌≡◌, refl, sym, ◌∙◌, Option, none, some, arith, Bool-cases, inl,
  inr,
}
use mathlib.Core.Bool.{true≢false}
use sbnb.QemuVm.{
  Container, Host, World, Target, Request, VmState, Report, Ran, done, fails, ◌>>=◌,
  create_or_predict, removed_or_kept, present_with, ensure_present, stop_container, ensure_stopped,
  ensure_absent, run_target, run,
}
use sbnb.QemuVm.Refines.{view_of, view, goal, differs, Implements, run-Implements}

-- The run ends well, leaves the host as it is, and says that it changed nothing.
abbrev pub LeavesAlone : Host → Ran Report → Type 0
LeavesAlone h (fails g) = true ≡ false
LeavesAlone h (done r g) = (g ≡ h) × (r.changed ≡ false)

-- a target that needs the key
abbrev needs_key : Target → Bool
needs_key Target.present = true
needs_key Target.started = true
needs_key _ = false

module _ (w : World) (r : Request) (h : Host) where
  LeavesAlone-present :
      (c : Option Container) → VmState.running ≡ view_of c → LeavesAlone h (present_with w r h c)
  unfolding present_with
  LeavesAlone-present none v = absurd (true≢false (ap (differs VmState.absent) v))
  LeavesAlone-present (some c) v = ground arith

  LeavesAlone-stopped :
      (c : Option Container)
      → goal Target.stopped (view_of c) ≡ view_of c
      → LeavesAlone h (ensure_stopped w r h c)
  unfolding ensure_stopped
  LeavesAlone-stopped none v = (refl, refl)
  LeavesAlone-stopped (some c) v = ground arith

  LeavesAlone-absent :
      (c : Option Container) → VmState.absent ≡ view_of c → LeavesAlone h (ensure_absent w r h c)
  unfolding ensure_absent
  LeavesAlone-absent none v = (refl, refl)
  LeavesAlone-absent (some c) v = ground arith

  LeavesAlone-ensure_present :
      r.has_tskey ≡ true → VmState.running ≡ view h → LeavesAlone h (ensure_present w r h)
  unfolding ensure_present
  LeavesAlone-ensure_present k v = ground (arith, LeavesAlone-present h.container v)

  -- a host that is where the target wants it
  LeavesAlone-target :
      (t : Target)
      → (needs_key t ≡ true → r.has_tskey ≡ true)
      → goal t (view h) ≡ view h
      → LeavesAlone h (run_target w r h t)
  unfolding run_target
  LeavesAlone-target Target.present k v = LeavesAlone-ensure_present (k refl) v
  LeavesAlone-target Target.started k v = LeavesAlone-ensure_present (k refl) v
  LeavesAlone-target Target.stopped k v = LeavesAlone-stopped h.container v
  LeavesAlone-target Target.absent k v = LeavesAlone-absent h.container v

  had_key :
      (t : Target) (rep : Report) (g : Host)
      → run_target w r h t ≡ done rep g
      → needs_key t ≡ true
      → r.has_tskey ≡ true
  unfolding run_target ensure_present
  had_key Target.present rep g e n = ground arith
  had_key Target.started rep g e n = ground arith
  had_key Target.stopped rep g e n = ground arith
  had_key Target.absent rep g e n = ground arith

goal_idem : (t : Target) (s : VmState) → goal t (goal t s) ≡ goal t s
goal_idem t s = ground arith

-- what an outcome that is known promises
promised :
    (before after : VmState) (x : Ran Report) (rep : Report) (g : Host)
    → x ≡ done rep g
    → Implements before after x
    → view g ≡ after
promised before after x rep g e i = (subst (λ (y : Ran Report). Implements before after y) e i).0

-- After a run outside check mode that ended well, a second run of the same request ends well,
-- whatever the commands would then answer; it leaves the host as it is and reports no change.
pub second_run_settles :
    (w w2 : World) (r : Request) (h g : Host) (rep : Report)
    → r.check_mode ≡ false
    → run w r h ≡ done rep g
    → LeavesAlone g (run w2 r g)
unfolding run
second_run_settles w w2 r h g rep really e =
    let reached =
      promised (view h) (goal r.target (view h)) (run w r h) rep g e
        (run-Implements w r h really) in
    LeavesAlone-target w2 r g r.target (had_key w r h r.target rep g e)
      (ap (goal r.target) reached ∙ goal_idem r.target (view h) ∙ sym reached)

-- The run ends well, leaves the host as it is, and says whether a run would change the state.
abbrev pub Predicts : VmState → Host → Ran Report → Type 0
Predicts after h (fails g) = true ≡ false
Predicts after h (done r g) = (g ≡ h) × (r.changed ≡ differs (view h) after)

module _ (w : World) (r : Request) (h : Host) (checking : r.check_mode ≡ true) where
  Predicts-create :
      (after : VmState) → differs (view h) after ≡ true → Predicts after h (create_or_predict w r h)
  unfolding create_or_predict
  Predicts-create after d = rw checking (refl, sym d)

  removed_in_check : removed_or_kept w r h ≡ done true h
  unfolding removed_or_kept
  removed_in_check = rw checking refl

  Predicts-recreate :
      differs (view h) VmState.running ≡ true
      → Predicts VmState.running h (removed_or_kept w r h >>= (λ x. create_or_predict w r x.1))
  Predicts-recreate d = rw removed_in_check (Predicts-create VmState.running d)

  Predicts-present :
      (c : Option Container) → h.container ≡ c → Predicts VmState.running h (present_with w r h c)
  unfolding present_with
  Predicts-present none e = Predicts-create VmState.running (rw e refl)
  Predicts-present (some c) e = elim (Bool-cases c.is_running) [
    | inl on ↦ rw on (refl, rw (e, on) refl)
    | inr off ↦ simp off (Predicts-recreate (rw (e, off) refl))
  ]

  Predicts-stop :
      (c : Option Container)
      → h.container ≡ c
      → Predicts (goal Target.stopped (view h)) h (ensure_stopped w r h c)
  unfolding ensure_stopped stop_container
  Predicts-stop none e = rw e (refl, refl)
  Predicts-stop (some c) e = elim (Bool-cases c.is_running) [
    | inl on ↦ rw (on, checking, e, on) (refl, refl)
    | inr off ↦ rw (off, e, off) (refl, refl)
  ]

  Predicts-absent :
      (c : Option Container) → h.container ≡ c → Predicts VmState.absent h (ensure_absent w r h c)
  unfolding ensure_absent
  Predicts-absent none e = rw e (refl, refl)
  Predicts-absent (some c) e = elim (Bool-cases c.is_running) [
    | inl on ↦ rw (checking, e, on) (refl, refl)
    | inr off ↦ rw (checking, e, off) (refl, refl)
  ]

  Predicts-ensure_present : r.has_tskey ≡ true → Predicts VmState.running h (ensure_present w r h)
  unfolding ensure_present
  Predicts-ensure_present key = rw key (Predicts-present h.container refl)

  Predicts-target :
      (t : Target) → r.has_tskey ≡ true → Predicts (goal t (view h)) h (run_target w r h t)
  unfolding run_target
  Predicts-target Target.present key = Predicts-ensure_present key
  Predicts-target Target.started key = Predicts-ensure_present key
  Predicts-target Target.stopped key = Predicts-stop h.container refl
  Predicts-target Target.absent key = Predicts-absent h.container refl

-- With the key given, a run in check mode ends well and leaves the host as it is, and it reports a
-- change exactly when the VM is not yet in the state that its target asks for.
pub run-Predicts :
    (w : World) (r : Request) (h : Host)
    → r.check_mode ≡ true
    → r.has_tskey ≡ true
    → Predicts (goal r.target (view h)) h (run w r h)
unfolding run
run-Predicts w r h checking key = Predicts-target w r h checking r.target key
