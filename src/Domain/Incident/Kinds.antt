-- ===== src/Domain/Incident/Kinds.antt =====
-- The operational enumerations of crates/core/src/domain/incident.rs with their database texts.
use statuspage.Base.{String, Bool, true, false, if◌then◌else◌, text_eq}

-- Internal operational state.
pub data IncidentState : Type 0 where
  triggered acknowledged resolved : IncidentState

unfoldable pub state_as_db_str : IncidentState → String
state_as_db_str IncidentState.triggered = "triggered"
state_as_db_str IncidentState.acknowledged = "acknowledged"
state_as_db_str IncidentState.resolved = "resolved"

unfoldable pub state_from_db_str : String → IncidentState
state_from_db_str s =
    if text_eq s "acknowledged"
    then IncidentState.acknowledged
    else if text_eq s "resolved"
    then IncidentState.resolved
    else IncidentState.triggered

-- Paging behaviour.
pub data IncidentUrgency : Type 0 where
  high low : IncidentUrgency

unfoldable pub urgency_as_db_str : IncidentUrgency → String
urgency_as_db_str high = "high"
urgency_as_db_str low = "low"

unfoldable pub urgency_from_db_str : String → IncidentUrgency
urgency_from_db_str s = if text_eq s "low" then low else high

-- Opened from a check stream, or declared by an operator.
pub data IncidentOrigin : Type 0 where
  monitor manual : IncidentOrigin

unfoldable pub origin_as_db_str : IncidentOrigin → String
origin_as_db_str monitor = "monitor"
origin_as_db_str manual = "manual"

unfoldable pub origin_from_db_str : String → IncidentOrigin
origin_from_db_str s = if text_eq s "manual" then manual else monitor

-- Whether the incident is published.
pub data IncidentVisibility : Type 0 where
  internal public : IncidentVisibility

unfoldable pub visibility_as_db_str : IncidentVisibility → String
visibility_as_db_str internal = "internal"
visibility_as_db_str public = "public"

unfoldable pub visibility_from_db_str : String → IncidentVisibility
visibility_from_db_str s = if text_eq s "public" then public else internal

-- Who caused an event.
pub data ActorType : Type 0 where
  system user mcp : ActorType

unfoldable pub actor_as_db_str : ActorType → String
actor_as_db_str system = "system"
actor_as_db_str user = "user"
actor_as_db_str mcp = "mcp"

unfoldable pub actor_from_db_str : String → ActorType
actor_from_db_str s = if text_eq s "user" then user else if text_eq s "mcp" then mcp else system

-- Kind of internal timeline entry.
pub data IncidentEventKind : Type 0 where
  triggered acknowledged assigned unassigned escalated notified note severity_changed state_changed
        resolved reopened published unpublished postmortem_published postmortem_unpublished :
      IncidentEventKind

unfoldable pub event_kind_as_db_str : IncidentEventKind → String
event_kind_as_db_str IncidentEventKind.triggered = "triggered"
event_kind_as_db_str IncidentEventKind.acknowledged = "acknowledged"
event_kind_as_db_str assigned = "assigned"
event_kind_as_db_str unassigned = "unassigned"
event_kind_as_db_str IncidentEventKind.escalated = "escalated"
event_kind_as_db_str notified = "notified"
event_kind_as_db_str note = "note"
event_kind_as_db_str severity_changed = "severity_changed"
event_kind_as_db_str state_changed = "state_changed"
event_kind_as_db_str IncidentEventKind.resolved = "resolved"
event_kind_as_db_str IncidentEventKind.reopened = "reopened"
event_kind_as_db_str published = "published"
event_kind_as_db_str unpublished = "unpublished"
event_kind_as_db_str postmortem_published = "postmortem_published"
event_kind_as_db_str postmortem_unpublished = "postmortem_unpublished"

unfoldable pub event_kind_from_db_str : String → IncidentEventKind
event_kind_from_db_str s =
    if text_eq s "triggered"
    then IncidentEventKind.triggered
    else if text_eq s "acknowledged"
    then IncidentEventKind.acknowledged
    else if text_eq s "assigned"
    then assigned
    else if text_eq s "unassigned"
    then unassigned
    else if text_eq s "escalated"
    then IncidentEventKind.escalated
    else if text_eq s "notified"
    then notified
    else if text_eq s "severity_changed"
    then severity_changed
    else if text_eq s "state_changed"
    then state_changed
    else if text_eq s "resolved"
    then IncidentEventKind.resolved
    else if text_eq s "reopened"
    then IncidentEventKind.reopened
    else if text_eq s "published"
    then published
    else if text_eq s "unpublished"
    then unpublished
    else if text_eq s "postmortem_published"
    then postmortem_published
    else if text_eq s "postmortem_unpublished"
    then postmortem_unpublished
    else note

-- Delivery status of a paging attempt.
pub data NotificationStatus : Type 0 where
  queued sent failed suppressed : NotificationStatus

unfoldable pub notification_status_as_db_str : NotificationStatus → String
notification_status_as_db_str queued = "queued"
notification_status_as_db_str sent = "sent"
notification_status_as_db_str failed = "failed"
notification_status_as_db_str suppressed = "suppressed"

unfoldable pub notification_status_from_db_str : String → NotificationStatus
notification_status_from_db_str s =
    if text_eq s "sent"
    then sent
    else if text_eq s "failed"
    then failed
    else if text_eq s "suppressed"
    then suppressed
    else queued

-- Why a page was sent.
pub data NotificationReason : Type 0 where
  opened escalated resolved reopened no_data data_resumed : NotificationReason

unfoldable pub notification_reason_as_db_str : NotificationReason → String
notification_reason_as_db_str opened = "opened"
notification_reason_as_db_str NotificationReason.escalated = "escalated"
notification_reason_as_db_str NotificationReason.resolved = "resolved"
notification_reason_as_db_str NotificationReason.reopened = "reopened"
notification_reason_as_db_str no_data = "no_data"
notification_reason_as_db_str data_resumed = "data_resumed"

unfoldable pub notification_reason_from_db_str : String → NotificationReason
notification_reason_from_db_str s =
    if text_eq s "escalated"
    then NotificationReason.escalated
    else if text_eq s "resolved"
    then NotificationReason.resolved
    else if text_eq s "reopened"
    then NotificationReason.reopened
    else if text_eq s "no_data"
    then no_data
    else if text_eq s "data_resumed"
    then data_resumed
    else opened

-- Still actionable.
unfoldable pub is_open : IncidentState → Bool
is_open IncidentState.triggered = true
is_open IncidentState.acknowledged = true
is_open IncidentState.resolved = false
