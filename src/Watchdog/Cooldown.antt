-- ===== src/Watchdog/Cooldown.antt =====
-- Recovery is rate-limited: between two restarts of a service lies the cooldown.
use sbnb.Prelude.{
  ltb, ℕ, ◌+◌, ◌≤◌, String, Bool, true, false, ◌≡◌, refl, Option, none, some, List, [], ◌∷◌, arith,
  inl, inr, Bool-cases,
}
use sbnb.Watchdog.{
  probe, probed, recover, failure_threshold, World, State, StateFile, number, absent, read_int,
  find_container, check_container, check_service, after, cooldown_seconds,
}

-- a restart at `t` came when the cooldown of the one before had ended
abbrev pub HasWaited : ℕ → List (String × ℕ) → Type 0
HasWaited t [] = Unit
HasWaited t ((d, u) ∷ rest) = u + cooldown_seconds ≤ t

abbrev pub IsSpaced : List (String × ℕ) → Type 0
IsSpaced [] = Unit
IsSpaced ((c, t) ∷ rest) = HasWaited t rest × IsSpaced rest

abbrev Guards : StateFile → List (String × ℕ) → Type 0
Guards file [] = Unit
Guards file ((c, t) ∷ rest) = read_int file ≡ t + cooldown_seconds

-- The restarts are spaced, and the cooldown file names the end of the last one's cooldown.
pub record IsLimited (s : State) : Type 0 where
  pub spaced : IsSpaced s.restarts
  pub guarded : Guards s.cooldown s.restarts

waited :
    (file : StateFile) (now : ℕ) (restarts : List (String × ℕ))
    → Guards file restarts
    → read_int file ≤ now
    → HasWaited now restarts
waited file now [] h l = tt
waited file now ((d, u) ∷ rest) h l = omega arith

IsLimited-recover :
    (c : String) (w : World) (failures : ℕ) (s : State)
    → IsLimited s
    → IsLimited (recover c w failures s)
unfolding recover
IsLimited-recover c w failures s h = elim (Bool-cases (ltb failures failure_threshold)) [
  | inl e ↦ rw e h
  | inr e ↦ elim (Bool-cases (ltb w.now (read_int s.cooldown))) [
    | inl q ↦ rw (e, q) h
    | inr q ↦
        let on_time = waited s.cooldown w.now s.restarts h.guarded (ground arith) in
        rw (e, q)
          (elim (Bool-cases w.restart_succeeds) [
            | inl b ↦ rw b (record { spaced = (on_time, h.spaced); guarded = refl })
            | inr b ↦ rw b (record { spaced = (on_time, h.spaced); guarded = refl })
          ])
  ]
]

IsLimited-failures :
    (file : StateFile) (s : State) → IsLimited s → IsLimited (record s { failures = file })
IsLimited-failures file s h = record { spaced = h.spaced; guarded = h.guarded }

IsLimited-probed :
    (c : String) (w : World) (s : State) (answer : Option Bool)
    → IsLimited s
    → IsLimited (probed c w s answer).0
unfolding probed
IsLimited-probed c w s none h = h
IsLimited-probed c w s (some true) h = IsLimited-failures absent s h
IsLimited-probed c w s (some false) h =
    IsLimited-recover c w (read_int s.failures + 1)
      (record s { failures = number (read_int s.failures + 1) })
      (IsLimited-failures (number (read_int s.failures + 1)) s h)

IsLimited-check_container :
    (kind : String) (w : World) (o : Option String) (s : State)
    → IsLimited s
    → IsLimited (check_container kind w o s).0
unfolding check_container
IsLimited-check_container kind w none s h = IsLimited-failures absent s h
IsLimited-check_container kind w (some c) s h = IsLimited-probed c w s (probe kind w.reply) h

after-IsLimited :
    (kind : String) (ws : List World) (s : State) → IsLimited s → IsLimited (after kind ws s)
unfolding after check_service
after-IsLimited kind [] s h = h
after-IsLimited kind (w ∷ ws) s h =
    IsLimited-check_container kind w (find_container w) (after kind ws s)
      (after-IsLimited kind ws s h)

-- Over any runs of the timer that start with no restart, whatever docker, the endpoint and the
-- clock answer, each restart of the service comes at least the cooldown after the one before.
pub restarts-IsSpaced :
    (kind : String) (ws : List World) (s : State)
    → s.restarts ≡ []
    → IsSpaced (after kind ws s).restarts
restarts-IsSpaced kind ws s e =
    (after-IsLimited kind ws s (record { spaced = rw e tt; guarded = rw e tt })).spaced
