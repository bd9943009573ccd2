-- ===== src/Engine/Events.antt =====
-- internal/engine/events.go: the kinds of event that the coordinator emits, and their categories.

pub data EventType : Type 0 where
  scan_started calibration_done hit warning throttle trap_detected branch_pruned : EventType
  scan_finished error tech_detected waf_detected spa_pivot stats snapshot : EventType

pub data Category : Type 0 where
  scan calibration discovery tech trap telemetry of_warning of_error control : Category

-- eventCategories
unfoldable pub event_category : EventType → Category
event_category scan_started = scan
event_category scan_finished = scan
event_category calibration_done = calibration
event_category hit = discovery
event_category spa_pivot = discovery
event_category tech_detected = tech
event_category waf_detected = tech
event_category trap_detected = trap
event_category branch_pruned = trap
event_category stats = telemetry
event_category snapshot = telemetry
event_category warning = of_warning
event_category error = of_error
event_category throttle = control
