-- ===== src/Daemon/Server.antt =====
-- The routes of internal/daemon/server.go: their middleware and the control handlers. What
-- json.Decode gives for a body is data. The handlers of manager.go and sessions.go are parameters:
-- `read` answers a route that reads and `change` one that starts, saves or resumes a scan.
-- SubmitControl is its send: a queue of 32 commands that the coordinator empties has room.
pub mod Guarded
pub mod Effect
use smart_buster.Prelude.{
  ℕ, Bool, true, false, not, ◌&&◌, ◌||◌, Option, none, some, List, [], ◌∷◌, ◌++◌, String, str_eq,
  if◌then◌else◌,
}
use smart_buster.Daemon.Scan.{Scan, control}
use smart_buster.Engine.Coordinator.Control.{
  ControlCmd, pause, resume, stop, adjust, pin, exclude, boost, demote, inject,
}
use smart_buster.Daemon.Security.{
  Security, Headers, Handshake, upgraded, origin_not_allowed, invalid_token, check_token,
  check_origin, ws_handshake,
}

pub data Pattern : Type 0 where
  pin_route exclude_route boost_route demote_route : Pattern

pub data Simple : Type 0 where
  pause_route resume_route stop_route : Simple

pub data Route : Type 0 where
  start_scan save_scan resume_session : Route
  list_scans get_scan get_findings list_sessions get_session : Route
  simple : Simple → Route
  adjust_scan : Route
  pattern : Pattern → Route
  inject_scan : Route
  events : Route
  assets : Route

pub data Status : Type 0 where
  ok bad_request unauthorized forbidden not_found conflict switching_protocols : Status

-- A request: its headers, the {id} of its path, and what its body decodes to
pub record Request (F : Type 0) : Type 0 where
  pub headers : Headers
  pub id : String
  pub as_adjust : Option (Option F × (Option ℕ × Option String))
  pub as_pattern : Option (String × F)
  pub as_terms : Option (List String)

abbrev pub Reply : Type 0 → Type 0
Reply F = Status × List (Scan F)

module _ {F : Type 0} where
  unfoldable pub get : String → List (Scan F) → Option (Scan F)
  get id [] = none
  get id (s ∷ ss) = let rest = get id ss in if str_eq s.id id then some s else rest

  unfoldable pub set_scan : String → Scan F → List (Scan F) → List (Scan F)
  set_scan id new [] = []
  set_scan id new (s ∷ ss) =
      let rest = set_scan id new ss in if str_eq s.id id then new ∷ ss else s ∷ rest

  abbrev pub settle : Scan F → List (Scan F) → Option (Scan F) → Reply F
  settle scan scans none = (conflict, scans)
  settle scan scans (some controlled) = (ok, set_scan scan.id controlled scans)

  -- Scan.Control on a scan of the registry, and writeControlError
  unfoldable pub control_in : ControlCmd F → Scan F → List (Scan F) → Reply F
  unfolding set_scan control
  control_in cmd scan scans = settle scan scans (control cmd scan)

  abbrev pub simple_command : Simple → ControlCmd F
  simple_command pause_route = pause
  simple_command resume_route = resume
  simple_command stop_route = stop

  abbrev pub pattern_command : Pattern → String → F → ControlCmd F
  pattern_command pin_route p factor = pin p
  pattern_command exclude_route p factor = exclude p
  pattern_command boost_route p factor = boost p factor
  pattern_command demote_route p factor = demote p factor

  -- Whether the terms of a body are there
  abbrev pub inject_command : Option (List String) → Option (ControlCmd F)
  inject_command (some (t ∷ ts)) = some (inject (t ∷ ts))
  inject_command _ = none

  abbrev pub adjust_command : Option (Option F × (Option ℕ × Option String)) → Option (ControlCmd F)
  adjust_command none = none
  adjust_command (some (rate, (concurrency, mode))) = some (adjust rate concurrency mode)

  abbrev pub patterned : Pattern → Option (String × F) → Option (ControlCmd F)
  patterned kind none = none
  patterned kind (some (p, factor)) =
      if str_eq p "" then none else some (pattern_command kind p factor)

  -- The scan is looked up before the body is read.
  abbrev pub submit : Option (ControlCmd F) → Scan F → List (Scan F) → Reply F
  submit none scan scans = (bad_request, scans)
  submit (some cmd) scan scans = control_in cmd scan scans

  abbrev pub with_scan : Option (Scan F) → List (Scan F) → (Scan F → Reply F) → Reply F
  with_scan none scans handler = (not_found, scans)
  with_scan (some scan) scans handler = handler scan

  unfoldable pub handle_control : Option (ControlCmd F) → Request F → List (Scan F) → Reply F
  unfolding get control_in
  handle_control cmd r scans = with_scan (get r.id scans) scans (λ scan. submit cmd scan scans)

  abbrev pub require_token : Security → Request F → List (Scan F) → Reply F → Reply F
  require_token sec r scans next =
      if not (check_token sec r.headers) then (unauthorized, scans) else next

  abbrev pub require_origin : Security → Request F → List (Scan F) → Reply F → Reply F
  require_origin sec r scans next =
      if not (check_origin sec r.headers) then (forbidden, scans) else next

  -- The server of x/net/websocket answers a handshake that is refused by 403.
  abbrev pub handshake_reply : Handshake → List (Scan F) → Reply F
  handshake_reply upgraded scans = (switching_protocols, scans)
  handshake_reply origin_not_allowed scans = (forbidden, scans)
  handshake_reply invalid_token scans = (forbidden, scans)

  abbrev pub mutating : Security → Request F → List (Scan F) → Reply F → Reply F
  mutating sec r scans next = require_token sec r scans (require_origin sec r scans next)

  -- The guards of routes(), and the handler of each
  unfoldable pub serve :
      (Route → Request F → List (Scan F) → Status)
      → (Route → Request F → List (Scan F) → Reply F)
      → Security
      → Route
      → Request F
      → List (Scan F)
      → Reply F
  unfolding get handle_control check_token check_origin ws_handshake
  serve read change sec start_scan r scans = mutating sec r scans (change start_scan r scans)
  serve read change sec save_scan r scans = mutating sec r scans (change save_scan r scans)
  serve read change sec resume_session r scans =
      mutating sec r scans (change resume_session r scans)
  serve read change sec (simple kind) r scans =
      mutating sec r scans (handle_control (some (simple_command kind)) r scans)
  serve read change sec adjust_scan r scans =
      mutating sec r scans (handle_control (adjust_command r.as_adjust) r scans)
  serve read change sec (pattern kind) r scans =
      mutating sec r scans (handle_control (patterned kind r.as_pattern) r scans)
  serve read change sec inject_scan r scans =
      mutating sec r scans (handle_control (inject_command r.as_terms) r scans)
  serve read change sec events r scans =
      with_scan (get r.id scans) scans (λ scan. handshake_reply (ws_handshake sec r.headers) scans)
  serve read change sec assets r scans = (read assets r scans, scans)
  serve read change sec route r scans = require_token sec r scans (read route r scans, scans)
