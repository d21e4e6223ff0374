-- ===== src/Storage/Escalation.antt =====
-- The escalation policies and states of crates/storage/src/memory.rs.
use statuspage.Base.{
  Bool, true, not, ◌&&◌, Option, none, some, is_some, List, ltb, leb, if◌then◌else◌, filter,
}
use statuspage.Base.Dict.{get, insert, remove, values}
use statuspage.Base.Sort.{sort_by}
use statuspage.Domain.Time.{Uuid, DateTime}
use statuspage.Domain.Escalation.{EscalationPolicy, IncidentEscalationState}
use statuspage.Storage.Memory.{MemoryStorage, Result, ok, err, not_found, or_not_found}

unfoldable pub get_escalation_policy : Uuid → MemoryStorage → Result EscalationPolicy
get_escalation_policy id m = or_not_found (get id m.escalation_policies)

unfoldable pub upsert_escalation_policy : EscalationPolicy → MemoryStorage → MemoryStorage
upsert_escalation_policy policy m = record m {
  escalation_policies = insert policy.id policy m.escalation_policies;
}

unfoldable pub delete_escalation_policy : Uuid → MemoryStorage → MemoryStorage × Result (Unit {0})
delete_escalation_policy id m =
    if is_some (get id m.escalation_policies)
    then (record m { escalation_policies = remove id m.escalation_policies }, ok tt)
    else (m, err not_found)

unfoldable pub get_escalation_state : Uuid → MemoryStorage → Option IncidentEscalationState
get_escalation_state incident_id m = get incident_id m.escalation_states

unfoldable pub upsert_escalation_state : IncidentEscalationState → MemoryStorage → MemoryStorage
upsert_escalation_state state m = record m {
  escalation_states = insert state.incident_id state m.escalation_states;
}

-- `!s.acked && s.next_check_at <= now`.
abbrev pub is_due : DateTime → IncidentEscalationState → Bool
is_due now s = not s.acked && leb s.next_check_at now

unfoldable pub list_due_escalation_states : DateTime → MemoryStorage → List IncidentEscalationState
list_due_escalation_states now m =
    sort_by (λ a b. ltb a.next_check_at b.next_check_at)
      (filter (is_due now) (values m.escalation_states))

unfoldable pub ack_escalation_state : Uuid → MemoryStorage → MemoryStorage × Result (Unit {0})
ack_escalation_state incident_id m = elim (get incident_id m.escalation_states) [
  | none ↦ (m, err not_found)
  | some state ↦ (
    record m {
      escalation_states = insert incident_id (record state { acked = true }) m.escalation_states;
    },
    ok tt,
  )
]

unfoldable pub delete_escalation_state : Uuid → MemoryStorage → MemoryStorage
delete_escalation_state incident_id m = record m {
  escalation_states = remove incident_id m.escalation_states;
}
