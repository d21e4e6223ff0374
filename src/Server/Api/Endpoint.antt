-- ===== src/Server/Api/Endpoint.antt =====
-- What the endpoint `/acknowledge` of bin/status-server/src/api/incident_ops.rs does to the paging.
use statuspage.Base.{
  ◌≡◌, refl, ap, ◌∙◌, arith, ◌==◌, none, some, List, Option-cases, Bool-cases, inl, inr, Option,
}
use mathlib.Core.Path.{subst}
use statuspage.Base.Dict.{Dict, get, insert, get-insert}
use statuspage.Domain.Time.{Uuid, DateTime}
use statuspage.Domain.Incident.{Incident}
use statuspage.Domain.Incident.Lifecycle.{next_state}
use statuspage.Storage.Memory.{MemoryStorage}
use statuspage.Storage.Incidents.{
  apply_incident_ops, apply_transition, parse_transition, take_transition, current_state,
  enter_state, store_amended, amend,
}
use statuspage.Server.Engine.{pages_of}
use statuspage.Server.Engine.Alike.{SameEnd, with_incidents, pages_of-same}
use statuspage.Server.Api.{acknowledge, to_patch, acknowledge_incident}

SameEnd-refl : (o : Option Incident) → SameEnd o o
SameEnd-refl none = tt
SameEnd-refl (some i) = (refl, refl)

replaced-SameEnd :
    (id : Uuid) (i j : Incident) (d : Dict Incident)
    → get id d ≡ some i
    → j.id ≡ i.id
    → j.ended_at ≡ i.ended_at
    → (k : Uuid) → SameEnd (get k (insert id j d)) (get k d)
replaced-SameEnd id i j d there ids ends k = elim (Bool-cases (id == k)) [
  | inl y ↦
      let same : id ≡ k = ground arith in
      let old : get k d ≡ some i = subst (λ n. get n d ≡ some i) same there in
      rw (get-insert id k j d, y, old) (ids, ends)
  | inr n ↦ rw (get-insert id k j d, n) (SameEnd-refl (get k d))
]

-- The storage that the endpoint leaves has the same incidents, up to what a sweep does not read.
acknowledged :
    (now : DateTime) (id : Uuid) (m : MemoryStorage)
    → (d : Dict Incident) × ((acknowledge_incident now id m).0 ≡ with_incidents d m)
      × ((k : Uuid) → SameEnd (get k d) (get k m.incidents))
unfolding acknowledge_incident apply_incident_ops apply_transition parse_transition take_transition
    current_state enter_state store_amended next_state
acknowledged now id m = elim (Option-cases (get id m.incidents)) [
  | inl e ↦ (m.incidents, rw (e, apply_incident_ops) refl, λ k. SameEnd-refl (get k m.incidents))
  | inr (i, e) ↦ elim (Option-cases i.ended_at) [
    | inl o ↦ (
      insert id (amend now (to_patch acknowledge) i) m.incidents,
      rw (e, apply_incident_ops, o) refl,
      replaced-SameEnd id i (amend now (to_patch acknowledge) i) m.incidents e refl refl,
    )
    | inr (t, c) ↦
        (m.incidents, rw (e, apply_incident_ops, c) refl, λ k. SameEnd-refl (get k m.incidents))
  ]
]

-- Whatever sweeps of the escalation engine follow a call of the endpoint `/acknowledge`, they send the
-- pages that they would have sent without it.
pub acknowledge_incident-same_pages :
    (now : DateTime) (times : List DateTime) (id : Uuid) (m : MemoryStorage)
    → pages_of times (acknowledge_incident now id m).0 ≡ pages_of times m
acknowledge_incident-same_pages now times id m =
    let (d, e, same) = acknowledged now id m in
    ap (pages_of times) e ∙ pages_of-same d m.incidents same times m
