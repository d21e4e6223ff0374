-- ===== src/Domain/Codes/Incidents.antt =====
-- The texts of the enumerations in crates/core/src/domain/incident.rs.
use statuspage.Base.{refl, inl}
use statuspage.Domain.Codes.Faithful.{IsFaithful, arm}
use statuspage.Domain.Incident.Kinds

pub state-IsFaithful :
    IsFaithful Kinds.state_as_db_str Kinds.state_from_db_str Kinds.IncidentState.triggered
unfolding Kinds.state_as_db_str Kinds.state_from_db_str
state-IsFaithful = (
  elim [
    | Kinds.IncidentState.triggered ↦ refl
    | Kinds.IncidentState.acknowledged ↦ refl
    | Kinds.IncidentState.resolved ↦ refl
  ],
  λ s.
      arm Kinds.state_as_db_str Kinds.IncidentState.triggered s Kinds.IncidentState.acknowledged _ (
        arm Kinds.state_as_db_str Kinds.IncidentState.triggered s Kinds.IncidentState.resolved _
          (inl refl)),
)

pub urgency-IsFaithful :
    IsFaithful Kinds.urgency_as_db_str Kinds.urgency_from_db_str Kinds.IncidentUrgency.high
unfolding Kinds.urgency_as_db_str Kinds.urgency_from_db_str
urgency-IsFaithful = (
  elim [ Kinds.IncidentUrgency.high ↦ refl | Kinds.IncidentUrgency.low ↦ refl ],
  λ s.
      arm Kinds.urgency_as_db_str Kinds.IncidentUrgency.high s Kinds.IncidentUrgency.low _
        (inl refl),
)

pub origin-IsFaithful :
    IsFaithful Kinds.origin_as_db_str Kinds.origin_from_db_str Kinds.IncidentOrigin.monitor
unfolding Kinds.origin_as_db_str Kinds.origin_from_db_str
origin-IsFaithful = (
  elim [ Kinds.IncidentOrigin.monitor ↦ refl | Kinds.IncidentOrigin.manual ↦ refl ],
  λ s.
      arm Kinds.origin_as_db_str Kinds.IncidentOrigin.monitor s Kinds.IncidentOrigin.manual _
        (inl refl),
)

pub visibility-IsFaithful :
    IsFaithful Kinds.visibility_as_db_str Kinds.visibility_from_db_str
      Kinds.IncidentVisibility.internal
unfolding Kinds.visibility_as_db_str Kinds.visibility_from_db_str
visibility-IsFaithful = (
  elim [ Kinds.IncidentVisibility.internal ↦ refl | Kinds.IncidentVisibility.public ↦ refl ],
  λ s.
      arm Kinds.visibility_as_db_str Kinds.IncidentVisibility.internal s
        Kinds.IncidentVisibility.public _ (inl refl),
)

pub actor-IsFaithful :
    IsFaithful Kinds.actor_as_db_str Kinds.actor_from_db_str Kinds.ActorType.system
unfolding Kinds.actor_as_db_str Kinds.actor_from_db_str
actor-IsFaithful = (
  elim [ Kinds.ActorType.system ↦ refl | Kinds.ActorType.user ↦ refl | Kinds.ActorType.mcp ↦ refl ],
  λ s.
      arm Kinds.actor_as_db_str Kinds.ActorType.system s Kinds.ActorType.user _
        (arm Kinds.actor_as_db_str Kinds.ActorType.system s Kinds.ActorType.mcp _ (inl refl)),
)

pub event_kind-IsFaithful :
    IsFaithful Kinds.event_kind_as_db_str Kinds.event_kind_from_db_str Kinds.IncidentEventKind.note
unfolding Kinds.event_kind_as_db_str Kinds.event_kind_from_db_str
event_kind-IsFaithful = (
  elim [
    | Kinds.IncidentEventKind.triggered ↦ refl
    | Kinds.IncidentEventKind.acknowledged ↦ refl
    | Kinds.IncidentEventKind.assigned ↦ refl
    | Kinds.IncidentEventKind.unassigned ↦ refl
    | Kinds.IncidentEventKind.escalated ↦ refl
    | Kinds.IncidentEventKind.notified ↦ refl
    | Kinds.IncidentEventKind.note ↦ refl
    | Kinds.IncidentEventKind.severity_changed ↦ refl
    | Kinds.IncidentEventKind.state_changed ↦ refl
    | Kinds.IncidentEventKind.resolved ↦ refl
    | Kinds.IncidentEventKind.reopened ↦ refl
    | Kinds.IncidentEventKind.published ↦ refl
    | Kinds.IncidentEventKind.unpublished ↦ refl
    | Kinds.IncidentEventKind.postmortem_published ↦ refl
    | Kinds.IncidentEventKind.postmortem_unpublished ↦ refl
  ],
  λ s.
      arm Kinds.event_kind_as_db_str Kinds.IncidentEventKind.note s
        Kinds.IncidentEventKind.triggered _
        (arm Kinds.event_kind_as_db_str Kinds.IncidentEventKind.note s
          Kinds.IncidentEventKind.acknowledged _
          (arm Kinds.event_kind_as_db_str Kinds.IncidentEventKind.note s
            Kinds.IncidentEventKind.assigned _
            (arm Kinds.event_kind_as_db_str Kinds.IncidentEventKind.note s
              Kinds.IncidentEventKind.unassigned _
              (arm Kinds.event_kind_as_db_str Kinds.IncidentEventKind.note s
                Kinds.IncidentEventKind.escalated _
                (arm Kinds.event_kind_as_db_str Kinds.IncidentEventKind.note s
                  Kinds.IncidentEventKind.notified _
                  (arm Kinds.event_kind_as_db_str Kinds.IncidentEventKind.note s
                    Kinds.IncidentEventKind.severity_changed _
                    (arm Kinds.event_kind_as_db_str Kinds.IncidentEventKind.note s
                      Kinds.IncidentEventKind.state_changed _
                      (arm Kinds.event_kind_as_db_str Kinds.IncidentEventKind.note s
                        Kinds.IncidentEventKind.resolved _
                        (arm Kinds.event_kind_as_db_str Kinds.IncidentEventKind.note s
                          Kinds.IncidentEventKind.reopened _
                          (arm Kinds.event_kind_as_db_str Kinds.IncidentEventKind.note s
                            Kinds.IncidentEventKind.published _
                            (arm Kinds.event_kind_as_db_str Kinds.IncidentEventKind.note s
                              Kinds.IncidentEventKind.unpublished _
                              (arm Kinds.event_kind_as_db_str Kinds.IncidentEventKind.note s
                                Kinds.IncidentEventKind.postmortem_published _
                                (arm Kinds.event_kind_as_db_str Kinds.IncidentEventKind.note s
                                  Kinds.IncidentEventKind.postmortem_unpublished _
                                  (inl refl)))))))))))))),
)

pub notification_status-IsFaithful :
    IsFaithful Kinds.notification_status_as_db_str Kinds.notification_status_from_db_str
      Kinds.NotificationStatus.queued
unfolding Kinds.notification_status_as_db_str Kinds.notification_status_from_db_str
notification_status-IsFaithful = (
  elim [
    | Kinds.NotificationStatus.queued ↦ refl
    | Kinds.NotificationStatus.sent ↦ refl
    | Kinds.NotificationStatus.failed ↦ refl
    | Kinds.NotificationStatus.suppressed ↦ refl
  ],
  λ s.
      arm Kinds.notification_status_as_db_str Kinds.NotificationStatus.queued s
        Kinds.NotificationStatus.sent _
        (arm Kinds.notification_status_as_db_str Kinds.NotificationStatus.queued s
          Kinds.NotificationStatus.failed _
          (arm Kinds.notification_status_as_db_str Kinds.NotificationStatus.queued s
            Kinds.NotificationStatus.suppressed _ (inl refl))),
)

pub notification_reason-IsFaithful :
    IsFaithful Kinds.notification_reason_as_db_str Kinds.notification_reason_from_db_str
      Kinds.NotificationReason.opened
unfolding Kinds.notification_reason_as_db_str Kinds.notification_reason_from_db_str
notification_reason-IsFaithful = (
  elim [
    | Kinds.NotificationReason.opened ↦ refl
    | Kinds.NotificationReason.escalated ↦ refl
    | Kinds.NotificationReason.resolved ↦ refl
    | Kinds.NotificationReason.reopened ↦ refl
    | Kinds.NotificationReason.no_data ↦ refl
    | Kinds.NotificationReason.data_resumed ↦ refl
  ],
  λ s.
      arm Kinds.notification_reason_as_db_str Kinds.NotificationReason.opened s
        Kinds.NotificationReason.escalated _
        (arm Kinds.notification_reason_as_db_str Kinds.NotificationReason.opened s
          Kinds.NotificationReason.resolved _
          (arm Kinds.notification_reason_as_db_str Kinds.NotificationReason.opened s
            Kinds.NotificationReason.reopened _
            (arm Kinds.notification_reason_as_db_str Kinds.NotificationReason.opened s
              Kinds.NotificationReason.no_data _
              (arm Kinds.notification_reason_as_db_str Kinds.NotificationReason.opened s
                Kinds.NotificationReason.data_resumed _ (inl refl))))),
)
