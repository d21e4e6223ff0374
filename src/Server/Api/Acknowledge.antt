-- ===== src/Server/Api/Acknowledge.antt =====
-- What acknowledging and resolving an incident does to its escalation: the handlers of
-- bin/status-server/src/api/incident_ops.rs.
use statuspage.Base.{◌≡◌, ◌≢◌, refl, sym, ap, some, true, List, All, Option-cases, inl, inr}
use mathlib.Core.Path.{subst}
use statuspage.Base.Dict.{
  get, insert, get-insert_self, get-remove_self, remove-IsKeyed, IsKeyed, key-of, insert-IsKeyed,
}
use statuspage.Domain.Time.{Uuid, DateTime}
use statuspage.Domain.Incident.{Incident}
use statuspage.Domain.Escalation.{IncidentEscalationState}
use statuspage.Storage.Memory.{MemoryStorage, Result, ok, err}
use statuspage.Storage.Incidents.{IncidentOpsPatch, store_amended, apply_transition}
use statuspage.Storage.Incidents
use statuspage.Storage.Escalation.{ack_escalation_state, delete_escalation_state}
use statuspage.Server.Engine.{pages_of}
use statuspage.Server.Engine.Quiet.{IsQuiet, silent_sweeps}
use statuspage.Storage.Incidents.Ops.{apply_incident_ops-IsKeyed}
use statuspage.Server.Api.{
  Transition, acknowledge, resolve, reopen, is_final, as_str, mirror, after_ops, apply_incident_ops,
}

store_amended-states :
    (now : DateTime) (id : Uuid) (patch : IncidentOpsPatch) (m : MemoryStorage)
    (r : Result Incident)
    → (store_amended now id patch m r).0.escalation_states ≡ m.escalation_states
unfolding store_amended
store_amended-states now id patch m (err e) = refl
store_amended-states now id patch m (ok i) = refl

apply_incident_ops-states :
    (now : DateTime) (id : Uuid) (patch : IncidentOpsPatch) (m : MemoryStorage)
    → (Incidents.apply_incident_ops now id patch m).0.escalation_states ≡ m.escalation_states
unfolding Incidents.apply_incident_ops
apply_incident_ops-states now id patch m = elim (Option-cases (get id m.incidents)) [
  | inl e ↦ rw (Incidents.apply_incident_ops, e)
  | inr (i, e) ↦ rw (
    Incidents.apply_incident_ops,
    e,
    store_amended-states now id patch m (apply_transition now patch.transition i),
  )
]

ack-IsQuiet :
    (id : Uuid) (m : MemoryStorage)
    → IsKeyed (λ s. s.incident_id) m.escalation_states
    → IsQuiet id (ack_escalation_state id m).0.escalation_states
unfolding ack_escalation_state
ack-IsQuiet id m keyed = elim (Option-cases (get id m.escalation_states)) [
  | inl e ↦
      let same : (ack_escalation_state id m).0.escalation_states ≡ m.escalation_states =
        rw (ack_escalation_state, e) in
      subst (IsQuiet id) (sym same) (record { keyed = keyed; quiet = λ s at. cc })
  | inr (old, e) ↦
      let acked : IncidentEscalationState = record old { acked = true } in
      let same : (ack_escalation_state id m).0.escalation_states
          ≡ insert id acked m.escalation_states =
        rw (ack_escalation_state, e) in
      let key : old.incident_id ≡ id =
        key-of (λ s. s.incident_id) m.escalation_states keyed id old e in
      subst (IsQuiet id) (sym same) (record {
        keyed =
            subst (λ k. IsKeyed (λ s. s.incident_id) (insert k acked m.escalation_states)) key
              (insert-IsKeyed (λ s. s.incident_id) acked m.escalation_states keyed);
        quiet = λ s at.
            let self = get-insert_self id acked m.escalation_states in
            let is_acked : acked ≡ s = cc in ap (λ x. x.acked) (sym is_acked);
      })
]

delete-IsQuiet :
    (id : Uuid) (m : MemoryStorage)
    → IsKeyed (λ s. s.incident_id) m.escalation_states
    → IsQuiet id (delete_escalation_state id m).escalation_states
unfolding delete_escalation_state
delete-IsQuiet id m keyed = record {
  keyed = remove-IsKeyed (λ s. s.incident_id) id m.escalation_states keyed;
  quiet = λ s at. let self = get-remove_self id m.escalation_states in cc;
}

mirror-IsQuiet :
    (id : Uuid) (t : Transition) (m : MemoryStorage)
    → is_final t ≡ true
    → IsKeyed (λ s. s.incident_id) m.escalation_states
    → IsQuiet id (mirror id (some (as_str t)) m).escalation_states
unfolding mirror
mirror-IsQuiet id acknowledge m h keyed = ack-IsQuiet id m keyed
mirror-IsQuiet id resolve m h keyed = delete-IsQuiet id m keyed
mirror-IsQuiet id reopen m h keyed = cc

ack-incidents :
    (id : Uuid) (m : MemoryStorage) → (ack_escalation_state id m).0.incidents ≡ m.incidents
unfolding ack_escalation_state
ack-incidents id m = elim (Option-cases (get id m.escalation_states)) [
  | inl e ↦ rw (ack_escalation_state, e)
  | inr (old, e) ↦ rw (ack_escalation_state, e)
]

mirror-incidents :
    (id : Uuid) (t : Transition) (m : MemoryStorage)
    → (mirror id (some (as_str t)) m).incidents ≡ m.incidents
unfolding mirror delete_escalation_state
mirror-incidents id acknowledge m = ack-incidents id m
mirror-incidents id resolve m = refl
mirror-incidents id reopen m = refl

-- After `PATCH /incidents/{id}/ops` has accepted an acknowledgement or a resolution, whatever else the
-- patch sets, no sweep of the escalation engine pages that incident, in any sequence of sweeps that start
-- from the storage that the request left, if incidents and escalation states are stored under their
-- incident's id.
pub apply_ops-ends_paging :
    (now : DateTime) (times : List DateTime) (id : Uuid) (t : Transition) (patch : IncidentOpsPatch)
    (m : MemoryStorage) (i : Incident)
    → is_final t ≡ true
    → patch.transition ≡ some (as_str t)
    → (apply_incident_ops now id patch m).1 ≡ ok i
    → IsKeyed (λ x. x.id) m.incidents
    → IsKeyed (λ s. s.incident_id) m.escalation_states
    → All (λ p. p.incident_id ≢ id) (pages_of times (apply_incident_ops now id patch m).0)
unfolding apply_incident_ops after_ops
apply_ops-ends_paging now times id t patch m i final asked accepted incidents_keyed states_keyed =
    go (Incidents.apply_incident_ops now id patch m) refl accepted
  where
    go :
        (r : MemoryStorage × Result Incident)
        → Incidents.apply_incident_ops now id patch m ≡ r
        → (after_ops id patch r).1 ≡ ok i
        → All (λ p. p.incident_id ≢ id) (pages_of times (after_ops id patch r).0)
    go (n, err e) h accepted_r = cc
    go (n, ok j) h accepted_r =
        let ops_states = apply_incident_ops-states now id patch m in
        let left_states = ap (λ r. r.0.escalation_states) h in
        let states : m.escalation_states ≡ n.escalation_states = cc in
        let left_incidents : (Incidents.apply_incident_ops now id patch m).0.incidents
            ≡ n.incidents =
          ap (λ r. r.0.incidents) h in
        let keyed : IsKeyed (λ x. x.id) (mirror id (some (as_str t)) n).incidents =
          subst (IsKeyed (λ x. x.id)) (sym (mirror-incidents id t n)) (
            subst (IsKeyed (λ x. x.id)) left_incidents
              (apply_incident_ops-IsKeyed now id patch m incidents_keyed)) in
        subst (λ o. All (λ p. p.incident_id ≢ id) (pages_of times (mirror id o n))) (sym asked)
          (silent_sweeps id times (mirror id (some (as_str t)) n) (
            keyed,
            mirror-IsQuiet id t n final (subst (IsKeyed (λ s. s.incident_id)) states states_keyed),
          ))
