-- ===== src/Domain/Incident/Coalesce.antt =====
-- Coalescing a stream of check observations into incidents: `coalesce_incidents` and
-- `extend_incident` in crates/core/src/domain/incident.rs. `fresh n` is the id that the (n + 1)-th
-- call of `Uuid::now_v7()` draws.
pub mod Laws
pub mod Counts
use statuspage.Base.{ℕ, zero, suc, ◌+◌, true, false, Option, none, some, String, List, [], ◌∷◌}
use statuspage.Domain.Time.{Uuid, DateTime, secs_between}
use statuspage.Domain.Status.{CheckStatus, is_bad}
use statuspage.Domain.Incident.{Incident, Observation, new_incident}

abbrev pub or_else {ℓ} : {A : Type ℓ} → Option A → Option A → Option A
or_else none b = b
or_else (some a) b = some a

unfoldable pub extend_incident : Incident → DateTime → CheckStatus → Option String → Incident
extend_incident inc ts status error = record inc {
  check_count = inc.check_count + 1;
  error_sample = or_else inc.error_sample error;
  ended_at = some ts;
  duration_secs = some (secs_between inc.started_at ts);
  status = status;
}

-- The trailing run is still ongoing.
unfoldable pub finish : Option Incident → List Incident
finish none = []
finish (some inc) = record inc { ended_at = none; duration_secs = none } ∷ []

-- `out.push(inc)` for the run that a good observation closes.
unfoldable pub flush : Option Incident → List Incident → List Incident
flush none out = out
flush (some inc) out = inc ∷ out

-- The loop: `drawn` ids are used up, and `current` is the run that is open.
unfoldable pub coalesce_from :
    (ℕ → Uuid) → Uuid → ℕ → Option Incident → List Observation → List Incident
unfolding finish flush extend_incident new_incident
coalesce_from fresh target_id drawn current [] = finish current
coalesce_from fresh target_id drawn none ((ts, status, error) ∷ rest) = elim (is_bad status) [
  | true ↦
      coalesce_from fresh target_id (suc drawn)
        (some (new_incident (fresh drawn) target_id ts status error)) rest
  | false ↦ coalesce_from fresh target_id drawn none rest
]
coalesce_from fresh target_id drawn (some inc) ((ts, status, error) ∷ rest) = elim (is_bad status) [
  | true ↦ coalesce_from fresh target_id drawn (some (extend_incident inc ts status error)) rest
  | false ↦ flush (some inc) (coalesce_from fresh target_id drawn none rest)
]

unfoldable pub coalesce_incidents : (ℕ → Uuid) → Uuid → List Observation → List Incident
unfolding coalesce_from
coalesce_incidents fresh target_id observations = coalesce_from fresh target_id 0 none observations
