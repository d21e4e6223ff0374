-- ===== src/Domain/Codes/Statuses.antt =====
-- The texts of the enumerations in crates/core/src/domain/public.rs and extras.rs.
use statuspage.Base.{refl, inl}
use statuspage.Domain.Codes.Faithful.{IsFaithful, arm}
use statuspage.Domain.Status
use statuspage.Domain.OnCall.Slot

pub severity-IsFaithful :
    IsFaithful Status.severity_as_db_str Status.severity_from_db_str Status.IncidentSeverity.major
unfolding Status.severity_as_db_str Status.severity_from_db_str
severity-IsFaithful = (
  elim [
    | Status.IncidentSeverity.minor ↦ refl
    | Status.IncidentSeverity.major ↦ refl
    | Status.IncidentSeverity.critical ↦ refl
  ],
  λ s.
      arm Status.severity_as_db_str Status.IncidentSeverity.major s Status.IncidentSeverity.minor _
        (arm Status.severity_as_db_str Status.IncidentSeverity.major s
          Status.IncidentSeverity.critical _ (inl refl)),
)

pub phase-IsFaithful :
    IsFaithful Status.phase_as_db_str Status.phase_from_db_str
      Status.IncidentStatusPhase.investigating
unfolding Status.phase_as_db_str Status.phase_from_db_str
phase-IsFaithful = (
  elim [
    | Status.IncidentStatusPhase.investigating ↦ refl
    | Status.IncidentStatusPhase.identified ↦ refl
    | Status.IncidentStatusPhase.monitoring ↦ refl
    | Status.IncidentStatusPhase.resolved ↦ refl
    | Status.IncidentStatusPhase.postmortem ↦ refl
  ],
  λ s.
      arm Status.phase_as_db_str Status.IncidentStatusPhase.investigating s
        Status.IncidentStatusPhase.identified _
        (arm Status.phase_as_db_str Status.IncidentStatusPhase.investigating s
          Status.IncidentStatusPhase.monitoring _
          (arm Status.phase_as_db_str Status.IncidentStatusPhase.investigating s
            Status.IncidentStatusPhase.resolved _
            (arm Status.phase_as_db_str Status.IncidentStatusPhase.investigating s
              Status.IncidentStatusPhase.postmortem _ (inl refl)))),
)

pub delivery_status-IsFaithful :
    IsFaithful Status.delivery_status_as_db_str Status.delivery_status_from_db_str
      Status.DeliveryStatus.pending
unfolding Status.delivery_status_as_db_str Status.delivery_status_from_db_str
delivery_status-IsFaithful = (
  elim [
    | Status.DeliveryStatus.pending ↦ refl
    | Status.DeliveryStatus.claimed ↦ refl
    | Status.DeliveryStatus.sent ↦ refl
    | Status.DeliveryStatus.failed ↦ refl
    | Status.DeliveryStatus.dead_letter ↦ refl
  ],
  λ s.
      arm Status.delivery_status_as_db_str Status.DeliveryStatus.pending s
        Status.DeliveryStatus.claimed _
        (arm Status.delivery_status_as_db_str Status.DeliveryStatus.pending s
          Status.DeliveryStatus.sent _
          (arm Status.delivery_status_as_db_str Status.DeliveryStatus.pending s
            Status.DeliveryStatus.failed _
            (arm Status.delivery_status_as_db_str Status.DeliveryStatus.pending s
              Status.DeliveryStatus.dead_letter _ (inl refl)))),
)

pub delivery_reason-IsFaithful :
    IsFaithful Status.delivery_reason_as_db_str Status.delivery_reason_from_db_str
      Status.DeliveryReason.incident_opened
unfolding Status.delivery_reason_as_db_str Status.delivery_reason_from_db_str
delivery_reason-IsFaithful = (
  elim [
    | Status.DeliveryReason.incident_opened ↦ refl
    | Status.DeliveryReason.incident_resolved ↦ refl
    | Status.DeliveryReason.incident_update ↦ refl
    | Status.DeliveryReason.maintenance_started ↦ refl
    | Status.DeliveryReason.maintenance_ended ↦ refl
  ],
  λ s.
      arm Status.delivery_reason_as_db_str Status.DeliveryReason.incident_opened s
        Status.DeliveryReason.incident_resolved _
        (arm Status.delivery_reason_as_db_str Status.DeliveryReason.incident_opened s
          Status.DeliveryReason.incident_update _
          (arm Status.delivery_reason_as_db_str Status.DeliveryReason.incident_opened s
            Status.DeliveryReason.maintenance_started _
            (arm Status.delivery_reason_as_db_str Status.DeliveryReason.incident_opened s
              Status.DeliveryReason.maintenance_ended _ (inl refl)))),
)

pub rotation-IsFaithful :
    IsFaithful Slot.rotation_as_db_str Slot.rotation_from_db_str Slot.RotationType.custom
unfolding Slot.rotation_as_db_str Slot.rotation_from_db_str
rotation-IsFaithful = (
  elim [
    | Slot.RotationType.daily ↦ refl
    | Slot.RotationType.weekly ↦ refl
    | Slot.RotationType.custom ↦ refl
  ],
  λ s. arm Slot.rotation_as_db_str Slot.RotationType.custom s Slot.RotationType.daily _ (
      arm Slot.rotation_as_db_str Slot.RotationType.custom s Slot.RotationType.weekly _ (inl refl)),
)
