-- ===== src/QemuVm/Refines.antt =====
-- qemu_vm.py: what a run of the module promises, as a function on three states of the VM.
use sbnb.Prelude.{
  ap, if◌then◌else◌, sym, String, Bool, true, false, ◌≡◌, refl, Option, none, some, arith,
  Bool-cases, inl, inr,
}
use sbnb.QemuVm.{
  run_target, Container, Host, World, Target, Request, VmState, Report, Ran, done, fails, ◌>>=◌,
  prepare, start_container, start_report, start_prepared, create, create_or_predict,
  removed_or_kept, present_with, ensure_present, stop_container, ensure_stopped, clean_up,
  ensure_absent, run,
}

-- the state of the VM on a host
abbrev pub view_of : Option Container → VmState
view_of none = VmState.absent
view_of (some c) = if c.is_running then VmState.running else VmState.stopped

abbrev pub view : Host → VmState
view h = view_of h.container

-- what a target makes of a state
abbrev pub goal : Target → VmState → VmState
goal Target.present s = VmState.running
goal Target.started s = VmState.running
goal Target.absent s = VmState.absent
goal Target.stopped VmState.absent = VmState.absent
goal Target.stopped _ = VmState.stopped

abbrev pub differs : VmState → VmState → Bool
differs VmState.absent VmState.absent = false
differs VmState.stopped VmState.stopped = false
differs VmState.running VmState.running = false
differs VmState.would_create VmState.would_create = false
differs _ _ = true

-- A run that ends well has reached the goal, reports the state that it reached, and says truly
-- whether it changed the state.
abbrev pub Implements : VmState → VmState → Ran Report → Type 0
Implements before after (fails h) = Unit
Implements before after (done r h) =
    (view h ≡ after) × (r.state ≡ after) × (r.changed ≡ differs before after)

Implements-bind :
    {A : Type 0} (before after : VmState) (x : Ran A) (f : A × Host → Ran Report)
    → ((y : A × Host) → Implements before after (f y))
    → Implements before after (x >>= f)
Implements-bind before after (done a h) f k = k (a, h)
Implements-bind before after (fails h) f k = tt

module _ (w : World) (r : Request) where
  Implements-start_container :
      (before : VmState) (disk : Option String) (h : Host) (c : Option Container)
      → differs before VmState.running ≡ true
      → Implements before VmState.running
          (start_container w h c >>= (λ x. done (start_report w r disk x.0) x.1))
  unfolding start_container start_report
  Implements-start_container before disk h (some c) d = tt
  Implements-start_container before disk h none d =
      elim w.runs
        as (λ (o : Option String). Implements before VmState.running (
          (elim o [
            | none ↦ fails (record h { container = w.left_behind })
            | some id ↦
                done id (record h { container = some (record { id = id; is_running = true }) })
          ])
          >>= (λ x. done (start_report w r disk x.0) x.1))) [
            | none ↦ tt
            | some id ↦ (refl, refl, sym d)
          ]

  Implements-create :
      (before : VmState) (h : Host)
      → differs before VmState.running ≡ true
      → Implements before VmState.running (create w r h)
  unfolding create start_prepared
  Implements-create before h d =
      Implements-bind before VmState.running (prepare w r h) (start_prepared w r)
        (λ y. Implements-start_container before y.0 y.1 y.1.container d)

  module _ (really : r.check_mode ≡ false) where
    Implements-create_or_predict :
        (before : VmState) (h : Host)
        → differs before VmState.running ≡ true
        → Implements before VmState.running (create_or_predict w r h)
    unfolding create_or_predict
    Implements-create_or_predict before h d = rw really (Implements-create before h d)

    Implements-recreate :
        (h : Host)
        → Implements VmState.stopped VmState.running
            (removed_or_kept w r h >>= (λ x. create_or_predict w r x.1))
    Implements-recreate h =
        Implements-bind VmState.stopped VmState.running (removed_or_kept w r h)
          (λ x. create_or_predict w r x.1)
          (λ y. Implements-create_or_predict VmState.stopped y.1 refl)

    Implements-present :
        (h : Host) (c : Option Container)
        → h.container ≡ c
        → Implements (view_of c) VmState.running (present_with w r h c)
    unfolding present_with
    Implements-present h none e = Implements-create_or_predict VmState.absent h refl
    Implements-present h (some c) e = elim (Bool-cases c.is_running) [
      | inl on ↦ ground arith
      | inr off ↦ simp off (Implements-recreate h)
    ]

    Implements-stop :
        (h : Host) (c : Option Container)
        → h.container ≡ c
        → Implements (view_of c) (goal Target.stopped (view_of c)) (ensure_stopped w r h c)
    unfolding ensure_stopped stop_container
    Implements-stop h none e = (ap view_of e, refl, refl)
    Implements-stop h (some c) e = ground (arith, ap view_of e, really)

    Implements-absent :
        (h : Host) (c : Option Container)
        → h.container ≡ c
        → Implements (view_of c) VmState.absent (ensure_absent w r h c)
    unfolding ensure_absent clean_up
    Implements-absent h none e = (ap view_of e, refl, refl)
    Implements-absent h (some c) e = ground (arith, really)

    Implements-ensure_present :
        (h : Host) → Implements (view h) VmState.running (ensure_present w r h)
    unfolding ensure_present
    Implements-ensure_present h = ground (arith, Implements-present h h.container refl)

    Implements-target :
        (h : Host) (t : Target) → Implements (view h) (goal t (view h)) (run_target w r h t)
    unfolding run_target
    Implements-target h Target.present = Implements-ensure_present h
    Implements-target h Target.started = Implements-ensure_present h
    Implements-target h Target.stopped = Implements-stop h h.container refl
    Implements-target h Target.absent = Implements-absent h h.container refl

-- A run outside check mode that ends well has brought the VM to the state that its target asks for:
-- running, absent, or stopped, where a VM that was absent stays absent. It reports that state, and
-- it reports a change exactly when the VM was in another state before.
pub run-Implements :
    (w : World) (r : Request) (h : Host)
    → r.check_mode ≡ false
    → Implements (view h) (goal r.target (view h)) (run w r h)
unfolding run
run-Implements w r h really = Implements-target w r really h r.target
