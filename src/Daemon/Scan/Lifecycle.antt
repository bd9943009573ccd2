-- ===== src/Daemon/Scan/Lifecycle.antt =====
-- The lifecycle of a scan. Scan.Control of internal/daemon/scan.go sends a command and then takes the
-- lock to track it, and adopt's goroutine notes the end under the same lock: the two halves of a
-- call are events of their own here, and anything may come between them.
use smart_buster.Prelude.{
  ℕ, zero, suc, true, false, ◌≡◌, ◌≢◌, ◌⊎◌, Option, none, some, List, [], ◌∷◌, ◌++◌, ◌||◌,
  if◌then◌else◌,
}
use smart_buster.Engine.Coordinator.Control.{ControlCmd}
use smart_buster.Daemon.Scan.{
  ScanState, scan_stopped, scan_finished, Scan, submit_control, track, run_returns, finish,
}

-- What happens to a scan: a command is sent; the tracked state follows one of the commands that
-- were sent, given by its place among those that wait for this; Run returns; the end is noted.
pub data Event (F : Type 0) : Type 0 where
  submitted : ControlCmd F → Event F
  tracked_at : ℕ → Event F
  returned ended : Event F

-- The scan, and the commands that were sent and are not tracked yet
pub record Life (F : Type 0) : Type 0 where
  pub scan : Scan F
  pub pending : List (ControlCmd F)

-- How a scan ends: it stays stopped where it was, and stands as finished otherwise.
abbrev pub IsEnd : ScanState → ScanState → Type 0
IsEnd before after =
    ((before ≡ scan_stopped) × (after ≡ scan_stopped))
    ⊎ ((before ≢ scan_stopped) × (after ≡ scan_finished))

module _ {F : Type 0} where
  -- One of the commands, and the others
  unfoldable pub pick : ℕ → List (ControlCmd F) → Option (ControlCmd F × List (ControlCmd F))
  pick k [] = none
  pick zero (cmd ∷ cmds) = some (cmd, cmds)
  pick (suc k) (cmd ∷ cmds) = elim (pick k cmds) [
    | none ↦ none
    | some (other, rest) ↦ some (other, cmd ∷ rest)
  ]

  abbrev pub on_submit : ControlCmd F → Life F → Option (Scan F) → Life F
  on_submit cmd l none = l
  on_submit cmd l (some scan) = record { scan = scan; pending = l.pending ++ cmd ∷ [] }

  abbrev pub on_pick : Life F → Option (ControlCmd F × List (ControlCmd F)) → Life F
  on_pick l none = l
  on_pick l (some p) = record { scan = track p.0 l.scan; pending = p.1 }

  -- The goroutine of adopt goes on once, when Run has returned.
  unfoldable pub happens : Event F → Life F → Life F
  unfolding submit_control track run_returns finish pick
  happens (submitted cmd) l = on_submit cmd l (submit_control cmd l.scan)
  happens (tracked_at k) l = on_pick l (pick k l.pending)
  happens returned l = record l { scan = run_returns l.scan }
  happens ended l =
      if l.scan.is_running || l.scan.is_finished then l else record l { scan = finish l.scan }

  unfoldable pub happen : List (Event F) → Life F → Life F
  unfolding happens
  happen [] l = l
  happen (e ∷ es) l = happen es (happens e l)

  -- The run is over, its end is noted, and no command waits to be tracked.
  abbrev IsOver : Life F → Type 0
  IsOver l = (l.scan.is_running ≡ false) × (l.scan.is_finished ≡ true) × (l.pending ≡ [])

  abbrev IsSame : Life F → Life F → Type 0
  IsSame l t = (t.scan.state ≡ l.scan.state) × (t.scan.sent ≡ l.scan.sent)

  -- What an event leaves of a scan that is over
  abbrev StaysOver : Life F → Life F → Type 0
  StaysOver l t = IsOver t × IsSame l t
