-- ===== src/Domain/Status.antt =====
-- Statuses and reasons with their database texts: crates/core/src/domain/result.rs, public.rs,
-- extras.rs and write_source.rs.
use statuspage.Base.{ℕ, zero, suc, String, Bool, true, false, if◌then◌else◌, text_eq}

-- Customer-facing severity (public.rs).
pub data IncidentSeverity : Type 0 where
  minor major critical : IncidentSeverity

unfoldable pub severity_as_db_str : IncidentSeverity → String
severity_as_db_str minor = "minor"
severity_as_db_str major = "major"
severity_as_db_str critical = "critical"

unfoldable pub severity_from_db_str : String → IncidentSeverity
severity_from_db_str s =
    if text_eq s "minor" then minor else if text_eq s "critical" then critical else major

-- The phase of a public update (public.rs).
pub data IncidentStatusPhase : Type 0 where
  investigating identified monitoring resolved postmortem : IncidentStatusPhase

unfoldable pub phase_as_db_str : IncidentStatusPhase → String
phase_as_db_str investigating = "investigating"
phase_as_db_str identified = "identified"
phase_as_db_str monitoring = "monitoring"
phase_as_db_str resolved = "resolved"
phase_as_db_str postmortem = "postmortem"

unfoldable pub phase_from_db_str : String → IncidentStatusPhase
phase_from_db_str s =
    if text_eq s "identified"
    then identified
    else if text_eq s "monitoring"
    then monitoring
    else if text_eq s "resolved"
    then resolved
    else if text_eq s "postmortem"
    then postmortem
    else investigating

-- The status of a subscriber delivery (extras.rs).
pub data DeliveryStatus : Type 0 where
  pending claimed sent failed dead_letter : DeliveryStatus

unfoldable pub delivery_status_as_db_str : DeliveryStatus → String
delivery_status_as_db_str pending = "pending"
delivery_status_as_db_str claimed = "claimed"
delivery_status_as_db_str sent = "sent"
delivery_status_as_db_str failed = "failed"
delivery_status_as_db_str dead_letter = "dead_letter"

unfoldable pub delivery_status_from_db_str : String → DeliveryStatus
delivery_status_from_db_str s =
    if text_eq s "claimed"
    then claimed
    else if text_eq s "sent"
    then sent
    else if text_eq s "failed"
    then failed
    else if text_eq s "dead_letter"
    then dead_letter
    else pending

-- What triggered a delivery (extras.rs).
pub data DeliveryReason : Type 0 where
  incident_opened incident_resolved incident_update maintenance_started maintenance_ended :
      DeliveryReason

unfoldable pub delivery_reason_as_db_str : DeliveryReason → String
delivery_reason_as_db_str incident_opened = "incident_opened"
delivery_reason_as_db_str incident_resolved = "incident_resolved"
delivery_reason_as_db_str incident_update = "incident_update"
delivery_reason_as_db_str maintenance_started = "maintenance_started"
delivery_reason_as_db_str maintenance_ended = "maintenance_ended"

unfoldable pub delivery_reason_from_db_str : String → DeliveryReason
delivery_reason_from_db_str s =
    if text_eq s "incident_resolved"
    then incident_resolved
    else if text_eq s "incident_update"
    then incident_update
    else if text_eq s "maintenance_started"
    then maintenance_started
    else if text_eq s "maintenance_ended"
    then maintenance_ended
    else incident_opened

-- Outcome of one check (result.rs).
pub data CheckStatus : Type 0 where
  up down degraded error : CheckStatus

-- The stored `Enum8` value.
unfoldable pub status_as_enum8 : CheckStatus → ℕ
status_as_enum8 up = 1
status_as_enum8 down = 2
status_as_enum8 degraded = 3
status_as_enum8 error = 4

unfoldable pub status_from_enum8 : ℕ → CheckStatus
status_from_enum8 (suc zero) = up
status_from_enum8 (suc (suc zero)) = down
status_from_enum8 (suc (suc (suc zero))) = degraded
status_from_enum8 _ = error

-- `status == CheckStatus::Up`.
abbrev pub is_up : CheckStatus → Bool
is_up up = true
is_up _ = false

-- `matches!(status, CheckStatus::Down | CheckStatus::Error)`.
abbrev pub is_bad : CheckStatus → Bool
is_bad down = true
is_bad error = true
is_bad _ = false

-- Where a rule was last changed from (write_source.rs).
pub data WriteSource : Type 0 where
  ui api terraform : WriteSource
