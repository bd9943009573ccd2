-- ===== src/Daemon/Tests.antt =====
-- A daemon with one scan, and requests with and without its token.
use smart_buster.Prelude.{
  ℕ, true, false, ◌≡◌, ◌↔◌, refl, none, some, List, [], ◌∷◌, str_eq, if◌then◌else◌,
}
use smart_buster.Prelude.Text.{append, has_prefix, trim_prefix}
use smart_buster.Engine.Coordinator.Control.{pause, stop, pin}
use smart_buster.Daemon.Security.{
  Security, Headers, new_security, check_token, check_origin, validate_bind, bind_quiet,
  bind_refused,
}
use smart_buster.Daemon.Security.Token.{check_token_exact}
use smart_buster.Daemon.Scan.{
  Scan, scan_running, scan_paused, scan_finished, submit_control, track, control, finish,
  run_returns,
}
use smart_buster.Daemon.Scan.Lifecycle.{
  Life, submitted, tracked_at, returned, ended, pick, happen, happens,
}
use smart_buster.Daemon.Server.{
  Route, pattern, pin_route, Status, ok, unauthorized, Request, Reply, get, set_scan, control_in,
  handle_control, serve,
}
use smart_buster.Daemon.Server.Guarded.{IsGuarded, serve-IsGuarded}
use smart_buster.Daemon.Server.Effect.{handle_control-one}
use smart_buster.Daemon.Server.Effect

abbrev sec : Security
sec = record {
  token = "c0ffee";
  allowed_origins = "http://127.0.0.1:8181" ∷ "http://localhost:8181" ∷ [];
}

new_security_lem : new_security "c0ffee" "" "8181" ≡ sec
unfolding new_security append
new_security_lem = refl

abbrev with_token : Headers
with_token = record { authorization = "Bearer c0ffee"; origin = ""; protocols = [] }

check_token_exact_example :
    (check_token sec with_token ≡ true) ↔ (with_token.authorization ≡ append "Bearer " sec.token)
check_token_exact_example = check_token_exact sec with_token

abbrev scan : Scan ℕ
scan = record {
  id = "a1";
  state = scan_running;
  mode = "";
  is_running = true;
  is_finished = false;
  sent = [];
}

abbrev request : Request ℕ
request = record {
  headers = with_token;
  id = "a1";
  as_adjust = none;
  as_pattern = some ("admin", 0);
  as_terms = none;
}

abbrev read : Route → Request ℕ → List (Scan ℕ) → Status
read route r scans = ok

abbrev change : Route → Request ℕ → List (Scan ℕ) → Reply ℕ
change route r scans = (ok, scan ∷ scans)

abbrev pinned : Scan ℕ
pinned = record scan { sent = pin "admin" ∷ [] }

pin_lem : serve read change sec (pattern pin_route) request (scan ∷ []) ≡ (ok, pinned ∷ [])
unfolding serve handle_control get control_in set_scan control submit_control track check_token
    check_origin has_prefix trim_prefix
pin_lem = refl

foreign_lem :
    serve read change sec
      (pattern pin_route)
      (record request { headers = record with_token { authorization = "" } })
      (scan ∷ [])
    ≡ (unauthorized, scan ∷ [])
unfolding serve check_token has_prefix
foreign_lem = refl

serve-IsGuarded_example :
    IsGuarded sec request
      (scan ∷ [])
      (serve read change sec (pattern pin_route) request (scan ∷ []))
serve-IsGuarded_example = serve-IsGuarded sec request (scan ∷ []) read change (pattern pin_route)

handle_control-one_example :
    get "a1" (handle_control (some (pin "admin")) request (scan ∷ [])).1 ≡ (
      if str_eq "a1" "a1"
      then Effect.commanded (some (pin "admin")) (get "a1" (scan ∷ []))
      else get "a1" (scan ∷ []))
handle_control-one_example = handle_control-one (some (pin "admin")) request (scan ∷ []) "a1"

-- A scan whose run has returned, and what is asked of it behind the end
abbrev over : Life ℕ
over = record { scan = run_returns scan; pending = [] }

abbrev alive : Life ℕ
alive = record { scan = scan; pending = [] }

-- A pause behind a stop that the coordinator has not yet acted on: the scan counts as finished.
stop_is_forgotten :
    (happen
      (submitted stop ∷ tracked_at 0 ∷ submitted pause ∷ tracked_at 0 ∷ returned ∷ ended ∷ [])
      alive).scan.state
    ≡ scan_finished
unfolding happen happens pick submit_control track run_returns finish
stop_is_forgotten = refl

-- A pause that was sent before the run returned, and is tracked behind its end
late_pause :
    (happen (submitted pause ∷ returned ∷ ended ∷ tracked_at 0 ∷ []) alive).scan.state ≡ scan_paused
unfolding happen happens pick submit_control track run_returns finish
late_pause = refl

loopback : validate_bind (str_eq "::1") "127.0.0.1" false ≡ bind_quiet
unfolding validate_bind
loopback = refl

every_address : validate_bind (str_eq "::1") "0.0.0.0" false ≡ bind_refused
unfolding validate_bind
every_address = refl
