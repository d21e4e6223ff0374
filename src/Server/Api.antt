-- ===== src/Server/Api.antt =====
-- The incident endpoints: bin/status-server/src/api/incident_ops.rs.
pub mod Acknowledge
pub mod Endpoint
use statuspage.Base.{String, text_eq, Option, none, some, Bool, true, false, if◌then◌else◌}
use statuspage.Domain.Time.{Uuid, DateTime}
use statuspage.Domain.Incident.{Incident}
use statuspage.Storage.Memory.{MemoryStorage, Result, ok, err}
use statuspage.Storage.Incidents.{IncidentOpsPatch}
use statuspage.Storage.Incidents
use statuspage.Storage.Escalation.{ack_escalation_state, delete_escalation_state}

pub data Transition : Type 0 where
  acknowledge resolve reopen : Transition

abbrev pub as_str : Transition → String
as_str acknowledge = "acknowledge"
as_str resolve = "resolve"
as_str reopen = "reopen"

abbrev pub to_patch : Transition → IncidentOpsPatch
to_patch t = record {
  transition = some (as_str t);
  assignee_id = none;
  publish = none;
  severity = none;
  note = none;
}

-- The store's clock is a parameter; the cache of the public page is not part of the storage.
unfoldable pub acknowledge_incident :
    DateTime → Uuid → MemoryStorage → MemoryStorage × Result Incident
unfolding Incidents.apply_incident_ops
acknowledge_incident now id m = Incidents.apply_incident_ops now id (to_patch acknowledge) m

unfoldable pub resolve_incident : DateTime → Uuid → MemoryStorage → MemoryStorage × Result Incident
unfolding Incidents.apply_incident_ops
resolve_incident now id m = Incidents.apply_incident_ops now id (to_patch resolve) m

unfoldable pub reopen_incident : DateTime → Uuid → MemoryStorage → MemoryStorage × Result Incident
unfolding Incidents.apply_incident_ops
reopen_incident now id m = Incidents.apply_incident_ops now id (to_patch reopen) m

-- A failure of the mirrored call is logged and not reported.
unfoldable pub mirror : Uuid → Option String → MemoryStorage → MemoryStorage
unfolding ack_escalation_state delete_escalation_state
mirror id none m = m
mirror id (some t) m =
    if text_eq t (as_str acknowledge)
    then (ack_escalation_state id m).0
    else if text_eq t (as_str resolve)
    then delete_escalation_state id m
    else m

unfoldable pub after_ops :
    Uuid → IncidentOpsPatch → MemoryStorage × Result Incident → MemoryStorage × Result Incident
unfolding mirror
after_ops id patch (m, err e) = (m, err e)
after_ops id patch (m, ok incident) = (mirror id patch.transition m, ok incident)

unfoldable pub apply_incident_ops :
    DateTime → Uuid → IncidentOpsPatch → MemoryStorage → MemoryStorage × Result Incident
unfolding after_ops Incidents.apply_incident_ops
apply_incident_ops now id patch m = after_ops id patch (Incidents.apply_incident_ops now id patch m)

-- The transition ends the paging of the incident.
abbrev pub is_final : Transition → Bool
is_final acknowledge = true
is_final resolve = true
is_final reopen = false
