-- ===== src/Daemon/Server/Guarded.antt =====
-- What a request can change.
use smart_buster.Prelude.{
  true, not, ◌≡◌, ◌⊎◌, inl, inr, refl, Option, none, some, List, if-elim, Bool-cases,
}
use smart_buster.Prelude.Text.{append}
use smart_buster.Daemon.Security.{
  Security, Handshake, upgraded, origin_not_allowed, invalid_token, check_token, check_origin,
  ws_handshake,
}
use smart_buster.Daemon.Security.Token.{check_token_exact}
use smart_buster.Daemon.Scan.{Scan}
use smart_buster.Daemon.Server.{
  Route, start_scan, save_scan, resume_session, list_scans, get_scan, get_findings, list_sessions,
  get_session, simple, adjust_scan, pattern, inject_scan, events, assets, Status, Request, Reply,
  get, with_scan, require_token, handshake_reply, mutating, serve,
}

module _ {F : Type 0} (sec : Security) (r : Request F) (scans : List (Scan F)) where
  -- The reply leaves every scan as it was, or the request has the token and no foreign origin.
  abbrev pub IsGuarded : Reply F → Type 0
  IsGuarded reply =
      (reply.1 ≡ scans)
      ⊎ ((r.headers.authorization ≡ append "Bearer " sec.token)
          × (check_origin sec r.headers ≡ true))

  mutating-IsGuarded : (next : Reply F) → IsGuarded (mutating sec r scans next)
  mutating-IsGuarded next = elim (Bool-cases (check_token sec r.headers)) [
    | inr u ↦ inl (rw u refl)
    | inl u ↦ elim (Bool-cases (check_origin sec r.headers)) [
      | inr v ↦ inl (rw (u, v) refl)
      | inl v ↦ inr ((check_token_exact sec r.headers).0 u, v)
    ]
  ]

  reading-IsGuarded : (st : Status) → IsGuarded (require_token sec r scans (st, scans))
  reading-IsGuarded st = inl (
      if-elim (λ (x : Reply F). x.1 ≡ scans) (not (check_token sec r.headers)) (λ u. refl)
        (λ u. refl))

  handshake-same : (h : Handshake) → (handshake_reply h scans).1 ≡ scans
  handshake-same upgraded = refl
  handshake-same origin_not_allowed = refl
  handshake-same invalid_token = refl

  events-same :
      (found : Option (Scan F))
      → (with_scan found scans
          (λ (scan : Scan F). handshake_reply (ws_handshake sec r.headers) scans)).1
        ≡ scans
  events-same none = refl
  events-same (some scan) = handshake-same (ws_handshake sec r.headers)

  -- No request changes a scan or starts one unless its Authorization header carries the token and
  -- its Origin, where it has one, is allowed; whatever the handlers that start, save and resume do.
  pub serve-IsGuarded :
      (read : Route → Request F → List (Scan F) → Status)
      (change : Route → Request F → List (Scan F) → Reply F) (route : Route)
      → IsGuarded (serve read change sec route r scans)
  unfolding serve
  serve-IsGuarded read change start_scan = mutating-IsGuarded _
  serve-IsGuarded read change save_scan = mutating-IsGuarded _
  serve-IsGuarded read change resume_session = mutating-IsGuarded _
  serve-IsGuarded read change (simple kind) = mutating-IsGuarded _
  serve-IsGuarded read change adjust_scan = mutating-IsGuarded _
  serve-IsGuarded read change (pattern kind) = mutating-IsGuarded _
  serve-IsGuarded read change inject_scan = mutating-IsGuarded _
  serve-IsGuarded read change events = inl (events-same (get r.id scans))
  serve-IsGuarded read change assets = inl refl
  serve-IsGuarded read change list_scans = reading-IsGuarded _
  serve-IsGuarded read change get_scan = reading-IsGuarded _
  serve-IsGuarded read change get_findings = reading-IsGuarded _
  serve-IsGuarded read change list_sessions = reading-IsGuarded _
  serve-IsGuarded read change get_session = reading-IsGuarded _
