-- ===== src/Server/Engine.antt =====
-- The escalation engine, which pages the targets of an incident's policy until it is acknowledged or
-- resolved: bin/status-server/src/escalation_engine.rs.
pub mod Justified
pub mod Quiet
pub mod Alike
use statuspage.Base.{
  ℕ, ◌+◌, ◌*◌, Bool, Option, none, some, List, [], ◌∷◌, ◌++◌, map, find, ℤ, pos_part, leb_ℤ, ◌&&◌,
}
use statuspage.Domain.Time.{Uuid, DateTime, nanos}
use statuspage.Domain.Incident.{Incident}
use statuspage.Domain.Escalation.{
  EscalationTarget, EscalationStep, EscalationPolicy, EscalationDecision, page, exhausted,
  next_step, IncidentEscalationState,
}
use statuspage.Storage.Memory.{MemoryStorage, Result, StorageError, ok, err, not_found}
use statuspage.Storage.Incidents.{get_incident}
use statuspage.Storage.Escalation.{
  get_escalation_policy, upsert_escalation_state, delete_escalation_state,
  list_due_escalation_states,
}

-- A call of `dispatch_target`.
pub record Page : Type 0 where
  pub incident_id : Uuid
  pub target : EscalationTarget

-- What a call leaves: the storage, the pages sent, and whether it failed.
pub record Paged : Type 0 where
  pub storage : MemoryStorage
  pub pages : List Page
  pub result : Result (Unit {0})

-- The state is dropped: nothing more is paged.
unfoldable pub stop : IncidentEscalationState → MemoryStorage → Paged
unfolding delete_escalation_state
stop state m = record {
  storage = delete_escalation_state state.incident_id m;
  pages = [];
  result = ok tt;
}

unfoldable pub paged_state :
    DateTime → ℤ → ℤ → ℤ → IncidentEscalationState → IncidentEscalationState
paged_state now level round delay_secs state = record state {
  current_level = level;
  current_round = round;
  last_paged_at = now;
  next_check_at = now + pos_part delay_secs * nanos;
}

-- The first step of the level is paged, and the state as it was read is advanced and stored.
unfoldable pub page_step :
    DateTime
    → Incident
    → ℤ
    → ℤ
    → ℤ
    → Option EscalationStep
    → IncidentEscalationState
    → MemoryStorage
    → Paged
unfolding stop paged_state upsert_escalation_state
page_step now incident level round delay_secs none state m = stop state m
page_step now incident level round delay_secs (some step) state m = record {
  storage = upsert_escalation_state (paged_state now level round delay_secs state) m;
  pages = map (λ t. record { incident_id = incident.id; target = t }) step.targets;
  result = ok tt;
}

unfoldable pub follow :
    DateTime
    → Incident
    → EscalationPolicy
    → EscalationDecision
    → IncidentEscalationState
    → MemoryStorage
    → Paged
unfolding stop page_step
follow now incident policy exhausted state m = stop state m
follow now incident policy (page level round delay_secs) state m =
    page_step now incident level round delay_secs
      (find (λ s. leb_ℤ s.level level && leb_ℤ level s.level) policy.steps) state m

unfoldable pub escalate :
    DateTime → Incident → Result EscalationPolicy → IncidentEscalationState → MemoryStorage → Paged
unfolding follow next_step
escalate now incident (err e) state m = record { storage = m; pages = []; result = err e }
escalate now incident (ok policy) state m =
    follow now incident policy
      (next_step policy.steps policy.repeat_count state.current_level state.current_round) state m

-- `state` is the copy that the sweep read.
unfoldable pub advance_state : DateTime → IncidentEscalationState → MemoryStorage → Paged
unfolding stop escalate get_incident
advance_state now state m = elim (get_incident state.incident_id m) [
  | err not_found ↦ stop state m
  | err e ↦ record { storage = m; pages = []; result = err e }
  | ok incident ↦ elim incident.ended_at [
    | some t ↦ stop state m
    | none ↦ escalate now incident (get_escalation_policy state.policy_id m) state m
  ]
]

-- A failed state does not stop the sweep.
unfoldable pub advance_all : DateTime → List IncidentEscalationState → MemoryStorage → Paged
unfolding advance_state
advance_all now [] m = record { storage = m; pages = []; result = ok tt }
advance_all now (state ∷ states) m =
    let first = advance_state now state m in
    let rest = advance_all now states first.storage in
    record { storage = rest.storage; pages = first.pages ++ rest.pages; result = ok tt }

unfoldable pub sweep : DateTime → MemoryStorage → Paged
unfolding advance_all
sweep now m = advance_all now (list_due_escalation_states now m) m

-- The pages of one sweep after the other, at these times.
unfoldable pub pages_of : List DateTime → MemoryStorage → List Page
unfolding sweep
pages_of [] m = []
pages_of (now ∷ times) m = (sweep now m).pages ++ pages_of times (sweep now m).storage
