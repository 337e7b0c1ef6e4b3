-- ===== src/Watchdog.antt =====
-- watchdog.py: liveness checks and bounded recovery of one infrastructure container. The two state
-- files of a service are on a tmpfs whose writes succeed. What docker, the endpoint and the clock
-- answer during a check is a `World`; the restarts that are tried are recorded.
pub mod Cooldown
pub mod Threshold
use sbnb.Prelude.{
  ℕ, zero, suc, ◌+◌, String, Bool, true, false, not, ◌&&◌, Option, none, some, List, [], ◌∷◌, ◌++◌,
  ltb, ◌==◌, str_eq, if◌then◌else◌,
}

abbrev pub failure_threshold : ℕ
failure_threshold = 3

abbrev pub cooldown_seconds : ℕ
cooldown_seconds = 300

-- COMPOSE_PROJECTS
abbrev pub compose_projects : List String
compose_projects = "reefy-system" ∷ "state" ∷ []

-- What an HTTP probe meets: a response, whose body is a JSON object with a `status` and
-- `readyConnections`; no JSON; a body whose decoding or whose reading as such an object raises
-- another exception, as for a list; an HTTP error status; no connection; no HTTP.
pub data Reply : Type 0 where
  body : ℕ → ℕ → Reply
  no_json unfit http_error unreachable no_http : Reply

-- What `docker ps` gives for a project: an exception or an error code, or its output lines.
pub data Listing : Type 0 where
  error : Listing
  lines : List String → Listing

pub record World : Type 0 where
  pub docker_ps : String → Listing
  pub reply : Reply
  -- `docker restart` ends with code 0
  pub restart_succeeds : Bool
  pub now : ℕ

-- A state file: absent or unreadable, a text that `int` refuses, or a number.
pub data StateFile : Type 0 where
  absent garbage : StateFile
  number : ℕ → StateFile

pub record State : Type 0 where
  pub failures : StateFile
  pub cooldown : StateFile
  -- the containers that were told to restart, with the time, latest first
  pub restarts : List (String × ℕ)

-- `probe`; none is an exception that it does not catch
unfoldable pub probe : String → Reply → Option Bool
probe kind (body status ready) =
    some (if str_eq kind "cloudflared" then status == 200 && ltb 0 ready else true)
probe kind no_json = some (not (str_eq kind "cloudflared"))
probe kind unfit = if str_eq kind "cloudflared" then none else some true
probe kind http_error = some (str_eq kind "http-response")
probe kind unreachable = some false
probe kind no_http = none

first_line : List String → Option String
first_line [] = none
first_line (line ∷ rest) =
    let found = first_line rest in if str_eq line "" then found else some line

-- the loop of `find_container`
search_projects : (String → Listing) → List String → Option String
unfolding first_line
search_projects ps [] = none
search_projects ps (project ∷ rest) =
    let later = search_projects ps rest in
    elim (ps project) [
      | error ↦ none
      | lines l ↦ elim (first_line l) [ none ↦ later | some container ↦ some container ]
    ]

unfoldable pub find_container : World → Option String
unfolding search_projects
find_container w = search_projects w.docker_ps compose_projects

-- `_read_int`
unfoldable pub read_int : StateFile → ℕ
read_int (number n) = n
read_int _ = 0

-- the part of `check_service` from the cooldown on
restart : String → World → State → State
restart container w s =
    let tried = record s {
      cooldown = number (w.now + cooldown_seconds);
      restarts = (container, w.now) ∷ s.restarts;
    } in
    if w.restart_succeeds then record tried { failures = absent } else tried

recover : String → World → ℕ → State → State
unfolding restart read_int
recover container w failures s =
    if ltb failures failure_threshold
    then s
    else if ltb w.now (read_int s.cooldown)
    then s
    else restart container w s

-- after the probe; an exception of it ends the check
pub probed : String → World → State → Option Bool → State × Option Bool
unfolding recover read_int
probed container w s none = (s, none)
probed container w s (some true) = (record s { failures = absent }, some true)
probed container w s (some false) =
    let failures = read_int s.failures + 1 in
    (recover container w failures (record s { failures = number failures }), some false)

-- after the container is looked up
check_container : String → World → Option String → State → State × Option Bool
unfolding probed probe
check_container kind w none s = (record s { failures = absent }, some true)
check_container kind w (some container) s = probed container w s (probe kind w.reply)

-- `check_service` for the check of the given kind
unfoldable pub check_service : String → World → State → State × Option Bool
unfolding check_container find_container
check_service kind w s = check_container kind w (find_container w) s

-- The state after the timer's runs, the latest first.
unfoldable pub after : String → List World → State → State
unfolding check_service
after kind [] s = s
after kind (w ∷ ws) s = (check_service kind w (after kind ws s)).0
