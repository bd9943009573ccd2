-- ===== src/Daemon/Scan.antt =====
-- internal/daemon/scan.go: what the daemon tracks of a scan, and Scan.Control. SubmitControl is its
-- send, or its refusal once Run has returned: the queue of 32 commands has room. `control` is a call
-- that nothing comes between; Lifecycle has its two halves as events of their own.
pub mod Lifecycle
use smart_buster.Prelude.{
  Bool, true, false, Option, none, some, List, [], ◌∷◌, ◌++◌, String, if◌then◌else◌,
}
use smart_buster.Engine.Coordinator.Control.{ControlCmd, pause, resume, stop, adjust}

pub data ScanState : Type 0 where
  scan_running scan_paused scan_stopped scan_finished : ScanState

-- `is_running` is that the coordinator's Run has not returned, `sent` what its channel was sent.
pub record Scan (F : Type 0) : Type 0 where
  pub id : String
  pub state : ScanState
  pub mode : String
  pub is_running : Bool
  pub is_finished : Bool
  pub sent : List (ControlCmd F)

abbrev pub resumed : ScanState → ScanState
resumed scan_paused = scan_running
resumed other = other

abbrev pub new_mode : Option String → String → String
new_mode none mode = mode
new_mode (some new) mode = new

abbrev pub at_end : ScanState → ScanState
at_end scan_stopped = scan_stopped
at_end other = scan_finished

module _ {F : Type 0} where
  -- engine.Coordinator.SubmitControl: none is ErrScanNotRunning
  unfoldable pub submit_control : ControlCmd F → Scan F → Option (Scan F)
  submit_control cmd s =
      if s.is_running then some (record s { sent = s.sent ++ cmd ∷ [] }) else none

  -- The update of the tracked state behind the send
  unfoldable pub track : ControlCmd F → Scan F → Scan F
  track pause s = record s { state = scan_paused }
  track resume s = record s { state = resumed s.state }
  track stop s = record s { state = scan_stopped }
  track (adjust rate concurrency mode) s = record s { mode = new_mode mode s.mode }
  track cmd s = s

  abbrev pub tracked : ControlCmd F → Option (Scan F) → Option (Scan F)
  tracked cmd none = none
  tracked cmd (some sent) = some (track cmd sent)

  unfoldable pub control : ControlCmd F → Scan F → Option (Scan F)
  unfolding submit_control track
  control cmd s = tracked cmd (submit_control cmd s)

  unfoldable pub run_returns : Scan F → Scan F
  run_returns s = record s { is_running = false }

  -- adopt's goroutine behind Run
  unfoldable pub finish : Scan F → Scan F
  finish s = record s { state = at_end s.state; is_finished = true }
