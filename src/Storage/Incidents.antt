-- ===== src/Storage/Incidents.antt =====
-- The incident operations of crates/storage/src/memory.rs.
pub mod Ops
pub mod Open
pub mod Single
use statuspage.Base.{
  ℕ, Bool, true, false, ◌&&◌, String, text_eq, Option, none, some, is_none, is_some, List, [], ◌∷◌,
  ◌++◌, arith, ltb, ◌==◌, if◌then◌else◌, filter, head?, take, ◌-◌, ◌/◌,
}
use statuspage.Base.Dict.{get, insert, values}
use statuspage.Base.Sort.{sort_by}
use statuspage.Domain.Time.{Uuid, DateTime, secs_between, nanos}
use statuspage.Domain.Status.{IncidentSeverity, investigating}
use statuspage.Domain.Incident.{Incident, PublicIncidentUpdate}
use statuspage.Domain.Incident.Kinds.{IncidentState}
use statuspage.Domain.Incident.Lifecycle.{
  IncidentTransition, acknowledge, resolve, reopen, next_state,
}
use statuspage.Domain.Incident.Lifecycle
use statuspage.Storage.Memory.{MemoryStorage, Result, ok, err, not_found, conflict, or_not_found}

-- `sort_by_key(|i| Reverse(i.started_at))`.
abbrev pub newest_first : Incident → Incident → Bool
newest_first a b = ltb b.started_at a.started_at

unfoldable pub list_incidents : MemoryStorage → List Incident
list_incidents m = take 200 (sort_by newest_first (values m.incidents))

unfoldable pub get_incident : Uuid → MemoryStorage → Result Incident
get_incident id m = or_not_found (get id m.incidents)

unfoldable pub create_incident : Incident → MemoryStorage → MemoryStorage × Result Incident
create_incident incident m =
    if is_some (get incident.id m.incidents)
    then (m, err conflict)
    else (record m { incidents = insert incident.id incident m.incidents }, ok incident)

unfoldable pub update_incident : Incident → MemoryStorage → MemoryStorage × Result Incident
update_incident incident m =
    if is_some (get incident.id m.incidents)
    then (record m { incidents = insert incident.id incident m.incidents }, ok incident)
    else (m, err not_found)

unfoldable pub add_incident_update :
    Uuid → PublicIncidentUpdate → MemoryStorage → MemoryStorage × Result Incident
add_incident_update incident_id update m = elim (get incident_id m.incidents) [
  | none ↦ (m, err not_found)
  | some incident ↦
      let updated : Incident = record incident { updates = incident.updates ++ update ∷ [] } in
      (record m { incidents = insert incident_id updated m.incidents }, ok updated)
]

abbrev pub open_on : Uuid → Incident → Bool
open_on target_id i = i.target_id == target_id && is_none i.ended_at

unfoldable pub find_open_incident_for_target : Uuid → MemoryStorage → Option Incident
find_open_incident_for_target target_id m =
    head? (sort_by newest_first (filter (open_on target_id) (values m.incidents)))

-- What an API caller may set. The assignee and the publish flag have no effect on this projection.
pub record IncidentOpsPatch : Type 0 where
  pub transition : Option String
  pub assignee_id : Option Uuid
  pub publish : Option Bool
  pub severity : Option IncidentSeverity
  pub note : Option String

unfoldable pub parse_transition : String → Option IncidentTransition
parse_transition s =
    if text_eq s "acknowledge"
    then some acknowledge
    else if text_eq s "resolve"
    then some resolve
    else if text_eq s "reopen"
    then some reopen
    else none

-- Resolved iff `ended_at` is set.
unfoldable pub current_state : Incident → IncidentState
current_state i = elim i.ended_at [
  | some t ↦ IncidentState.resolved
  | none ↦ IncidentState.triggered
]

-- The fields that entering a state sets.
unfoldable pub enter_state : DateTime → IncidentState → Incident → Incident
enter_state now IncidentState.resolved i = record i {
  ended_at = some now;
  duration_secs = some (secs_between i.started_at now);
}
enter_state now IncidentState.triggered i = record i { ended_at = none; duration_secs = none }
enter_state now IncidentState.acknowledged i = i

unfoldable pub take_transition : DateTime → Incident → IncidentTransition → Result Incident
unfolding current_state enter_state
take_transition now i t = elim (next_state (current_state i) t) [
  | Lifecycle.ok s ↦ ok (enter_state now s i)
  | Lifecycle.err e ↦ err conflict
]

unfoldable pub apply_transition : DateTime → Option String → Incident → Result Incident
unfolding parse_transition take_transition
apply_transition now none i = ok i
apply_transition now (some s) i = elim (parse_transition s) [
  | none ↦ err conflict
  | some t ↦ take_transition now i t
]

abbrev pub set_severity : Option IncidentSeverity → Incident → Incident
set_severity none i = i
set_severity (some s) i = record i { severity = s }

abbrev pub add_note : DateTime → Option String → Incident → Incident
add_note now none i = i
add_note now (some note) i = record i {
  updates = i.updates ++ record { posted_at = now; phase = investigating; message = note } ∷ [];
}

abbrev pub amend : DateTime → IncidentOpsPatch → Incident → Incident
amend now patch i =
    let noted = add_note now patch.note (set_severity patch.severity i) in
    record noted { updated_at = some now }

unfoldable pub store_amended :
    DateTime
    → Uuid
    → IncidentOpsPatch
    → MemoryStorage
    → Result Incident
    → MemoryStorage × Result Incident
store_amended now id patch m (err e) = (m, err e)
store_amended now id patch m (ok i) =
    (record m { incidents = insert id (amend now patch i) m.incidents }, ok (amend now patch i))

unfoldable pub apply_incident_ops :
    DateTime → Uuid → IncidentOpsPatch → MemoryStorage → MemoryStorage × Result Incident
unfolding apply_transition store_amended
apply_incident_ops now incident_id patch m = elim (get incident_id m.incidents) [
  | none ↦ (m, err not_found)
  | some incident ↦
      store_amended now incident_id patch m (apply_transition now patch.transition incident)
]
