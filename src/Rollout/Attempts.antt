-- ===== src/Rollout/Attempts.antt =====
-- The attempts to pull or to start a project (dataplane.py): when they are made, and how many.
use sbnb.Prelude.{
  ◌==◌, ◌*◌, ◌^◌, min, min, ℕ, zero, suc, ◌-◌, ◌+◌, ◌≤◌, ◌<◌, String, Bool, true, false, ◌≡◌, refl,
  Option, none, some, List, [], ◌∷◌, leb, All, Each, arith, Bool-cases, inl, inr,
}
use sbnb.ApplyResults.Record.{Text}
use sbnb.Rollout.Failure.{is_final, classify_compose_failure}
use sbnb.Rollout.{
  phase_text, failure_reason, Event, ran, waited, World, Outcome, Job, delay_after, wait_then,
  after_failure, on_reply, is_stopped_pull, attempt, attempts, pull_services, pull_project_images,
  start_project_services,
}

-- The command of an attempt failed, and its output is not one after which no attempt is made.
abbrev pub IsTransient : World → Event → Type 0
IsTransient w (ran project args timeout ok output) =
    (ok ≡ false) × (is_final (classify_compose_failure w.lower output) ≡ false)
IsTransient w _ = Unit

-- A command is run before the deadline, with the time that is left, and after transient failures
-- only; a wait ends by the deadline and takes a minute at most.
abbrev pub Fits : World → ℕ → Event → List Event → Type 0
Fits w d (ran project args timeout ok output) es =
    (w.clock es < d) × (timeout ≡ d - w.clock es) × All (IsTransient w) es
Fits w d (waited pause over) es = (w.clock es + pause ≤ d) × (pause ≤ 60)
Fits w d _ es = Unit

in_time :
    (d c a : ℕ) → leb d c ≡ false → (c + min (min a 60) (d - c) ≤ d) × (min (min a 60) (d - c) ≤ 60)
in_time d c a h = ground arith

module _ (w : World) (j : Job) where
  -- what the rest of the attempts keeps
  abbrev Keeps : (List Event → List Event × Outcome) → Type 0
  Keeps next =
      (es : List Event)
      → All (IsTransient w) es
      → Each (Fits w j.deadline) es
      → Each (Fits w j.deadline) (next es).0

  wait_then-Fits :
      (pause : ℕ) (next : List Event → List Event × Outcome) (output : Text) (es : List Event)
      → Keeps next
      → (w.clock es + pause ≤ j.deadline) × (pause ≤ 60)
      → All (IsTransient w) es
      → Each (Fits w j.deadline) es
      → Each (Fits w j.deadline) (wait_then w pause next output es).0
  unfolding wait_then
  wait_then-Fits pause next output es k p t f =
      elim (Bool-cases (w.is_superseded_within es pause)) [
        | inl b ↦ rw b (p, f)
        | inr b ↦ rw b (k (waited pause false ∷ es) (tt, t) (p, f))
      ]

  module _ (left past : ℕ) (next : Text → Text → List Event → List Event × Outcome)
      (k : (output reason : Text) → Keeps (next output reason)) where
    after_failure-Fits :
        (output : Text) (es : List Event)
        → (is_final (classify_compose_failure w.lower output) ≡ false → All (IsTransient w) es)
        → Each (Fits w j.deadline) es
        → Each (Fits w j.deadline) (after_failure w j left past next output es).0
    unfolding after_failure
    after_failure-Fits output es t f =
        elim (Bool-cases (is_final (classify_compose_failure w.lower output))) [
          | inl n ↦ rw n f
          | inr n ↦ elim (Bool-cases (left == 0)) [
            | inl z ↦ rw (n, z) f
            | inr z ↦ elim (Bool-cases (leb j.deadline (w.clock es))) [
              | inl late ↦ rw (n, z, late) f
              | inr late ↦
                  rw (n, z, late)
                    (wait_then-Fits (min (delay_after past) (j.deadline - w.clock es))
                      (next output (
                        failure_reason (classify_compose_failure w.lower output)
                          (phase_text j.phase)))
                      output es
                      (k output (
                        failure_reason (classify_compose_failure w.lower output)
                          (phase_text j.phase)))
                      (in_time j.deadline (w.clock es) (10 * 2 ^ past) late) (t n) f)
            ]
          ]
        ]

    on_reply-Fits :
        (x : Bool × Text) (timeout : ℕ) (es : List Event)
        → w.clock es < j.deadline
        → timeout ≡ j.deadline - w.clock es
        → All (IsTransient w) es
        → Each (Fits w j.deadline) es
        → Each
            (Fits w j.deadline)
            (on_reply w j left past next x (ran j.project j.args timeout x.0 x.1 ∷ es)).0
    unfolding on_reply
    on_reply-Fits (true, output) timeout es c e t f = ((c, e, t), f)
    on_reply-Fits (false, output) timeout es c e t f =
        elim (Bool-cases (is_stopped_pull j.phase output)) [
          | inl b ↦ rw b ((c, e, t), f)
          | inr b ↦ rw b (
              after_failure-Fits output (ran j.project j.args timeout false output ∷ es)
                (λ n. ((refl, n), t)) ((c, e, t), f))
        ]

    attempt-Fits : (last reason : Text) → Keeps (attempt w j left past next last reason)
    unfolding attempt
    attempt-Fits last reason es t f = elim (Bool-cases (w.is_superseded es)) [
      | inl b ↦ rw b f
      | inr b ↦ elim (Bool-cases (leb j.deadline (w.clock es))) [
        | inl late ↦ rw (b, late) f
        | inr late ↦
            rw (b, late)
              (on_reply-Fits (w.compose es j.project j.args (j.deadline - w.clock es))
                (j.deadline - w.clock es) es (ground arith) refl t f)
      ]
    ]

  attempts-Fits : (left past : ℕ) (last reason : Text) → Keeps (attempts w j left past last reason)
  unfolding attempts
  attempts-Fits zero past last reason es t f = f
  attempts-Fits (suc left) past last reason es t f =
      attempt-Fits left past (attempts w j left (suc past)) (attempts-Fits left (suc past)) last
        reason es t f

-- how many commands were run
abbrev pub commands : List Event → ℕ
commands [] = 0
commands (ran project args timeout ok output ∷ es) = suc (commands es)
commands (_ ∷ es) = commands es

module _ (w : World) (j : Job) where
  commands-wait_then :
      (pause n : ℕ) (next : List Event → List Event × Outcome) (output : Text) (es : List Event)
      → ((fs : List Event) → commands (next fs).0 ≤ n + commands fs)
      → commands (wait_then w pause next output es).0 ≤ n + commands es
  unfolding wait_then
  commands-wait_then pause n next output es k =
      elim (Bool-cases (w.is_superseded_within es pause)) [
        | inl b ↦ rw b (ground arith)
        | inr b ↦ rw b (k (waited pause false ∷ es))
      ]

  module _ (left past : ℕ) (next : Text → Text → List Event → List Event × Outcome)
      (k : (output reason : Text) (fs : List Event)
        → commands (next output reason fs).0 ≤ left + commands fs) where
    commands-after_failure :
        (output : Text) (es : List Event)
        → commands (after_failure w j left past next output es).0 ≤ left + commands es
    unfolding after_failure
    commands-after_failure output es = ground (
      arith,
      commands-wait_then (min (delay_after past) (j.deadline - w.clock es)) left
          (next output
            (failure_reason (classify_compose_failure w.lower output) (phase_text j.phase)))
          output es
          (k output
            (failure_reason (classify_compose_failure w.lower output) (phase_text j.phase))),
    )

    commands-on_reply :
        (x : Bool × Text) (es : List Event)
        → commands (on_reply w j left past next x es).0 ≤ left + commands es
    unfolding on_reply
    commands-on_reply (true, output) es = ground arith
    commands-on_reply (false, output) es = ground (arith, commands-after_failure output es)

    commands-attempt :
        (last reason : Text) (es : List Event)
        → commands (attempt w j left past next last reason es).0 ≤ suc left + commands es
    unfolding attempt
    commands-attempt last reason es =
        let timeout = j.deadline - w.clock es in
        let reply = w.compose es j.project j.args timeout in
        ground (arith, commands-on_reply reply (ran j.project j.args timeout reply.0 reply.1 ∷ es))

  commands-attempts :
      (left past : ℕ) (last reason : Text) (es : List Event)
      → commands (attempts w j left past last reason es).0 ≤ left + commands es
  unfolding attempts
  commands-attempts zero past last reason es = ground arith
  commands-attempts (suc left) past last reason es =
      commands-attempt left past (attempts w j left (suc past)) (commands-attempts left (suc past))
        last reason es

commands-first :
    (w : World) (j : Job) (max_retries : ℕ) (reason : Text)
    → commands (attempts w j max_retries 0 [] reason []).0 ≤ max_retries
commands-first w j max_retries reason =
    omega (arith, commands-attempts w j max_retries 0 [] reason [])

-- the log of a pull, and of a start, that nothing was done before
abbrev pub pull_log : World → String → Option (List String) → ℕ → ℕ → List Event
pull_log w project services deadline max_retries =
    (pull_project_images w project services deadline max_retries []).0

abbrev pub start_log : World → String → Option (List String) → Bool → ℕ → List Event
start_log w project services remove_orphans max_retries =
    (start_project_services w project services remove_orphans max_retries []).0

pull-Fits :
    (w : World) (project : String) (services : Option (List String)) (deadline max_retries : ℕ)
    → Each (Fits w deadline) (pull_log w project services deadline max_retries)
unfolding pull_project_images pull_services
pull-Fits w project none deadline max_retries = attempts-Fits w _ max_retries 0 [] _ [] tt tt
pull-Fits w project (some []) deadline max_retries = tt
pull-Fits w project (some (n ∷ names)) deadline max_retries =
    attempts-Fits w _ max_retries 0 [] _ [] tt tt

commands-pull :
    (w : World) (project : String) (services : Option (List String)) (deadline max_retries : ℕ)
    → commands (pull_log w project services deadline max_retries) ≤ max_retries
unfolding pull_project_images pull_services
commands-pull w project none deadline max_retries = commands-first w _ max_retries _
commands-pull w project (some []) deadline max_retries = omega arith
commands-pull w project (some (n ∷ names)) deadline max_retries = commands-first w _ max_retries _

-- A pull and a start run at most as many commands as they have attempts. Each command is run before
-- the deadline, which for a start is 180 seconds after its first moment, with the time that is then
-- left, and only after attempts that failed with an output of the transient class; each wait ends
-- by the deadline and takes a minute at most. The log starts empty.
pub attempts_fit :
    (w : World) (project : String) (services : Option (List String)) (remove_orphans : Bool)
    (deadline max_retries : ℕ)
    → (let pulled = pull_log w project services deadline max_retries in
        Each (Fits w deadline) pulled × (commands pulled ≤ max_retries))
      × (let started = start_log w project services remove_orphans max_retries in
          Each (Fits w (w.clock [] + 180)) started × (commands started ≤ max_retries))
unfolding start_project_services
attempts_fit w project services remove_orphans deadline max_retries = (
  (
    pull-Fits w project services deadline max_retries,
    commands-pull w project services deadline max_retries,
  ),
  (attempts-Fits w _ max_retries 0 [] _ [] tt tt, commands-first w _ max_retries _),
)
