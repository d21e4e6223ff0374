-- ===== src/Domain/Incident.antt =====
-- Incidents: the public projection of crates/core/src/domain/incident.rs, and the update of public.rs.
pub mod Kinds
pub mod Lifecycle
pub mod Coalesce
pub mod Downtime
use statuspage.Base.{ℕ, String, List, Option, none, some, [], arith, ◌-◌, ◌/◌}
use statuspage.Domain.Time.{Uuid, DateTime, nanos}
use statuspage.Domain.Status.{CheckStatus, IncidentSeverity, IncidentStatusPhase, major}

pub record PublicIncidentUpdate : Type 0 where
  pub posted_at : DateTime
  pub phase : IncidentStatusPhase
  pub message : String

pub record Incident : Type 0 where
  pub id : Uuid
  pub target_id : Uuid
  pub started_at : DateTime
  pub ended_at : Option DateTime
  pub status : CheckStatus
  pub duration_secs : Option ℕ
  pub check_count : ℕ
  pub error_sample : Option String
  pub severity : IncidentSeverity
  pub public_title : Option String
  pub public_description : Option String
  pub created_at : Option DateTime
  pub updated_at : Option DateTime
  pub updates : List PublicIncidentUpdate
  pub regions_down : List String
  pub regions_up : List String

-- One check observation of a target's stream.
abbrev pub Observation : Type 0
Observation = DateTime × CheckStatus × Option String

-- The id that `Uuid::now_v7()` draws is an argument.
unfoldable pub new_incident : Uuid → Uuid → DateTime → CheckStatus → Option String → Incident
new_incident id target_id ts status error = record {
  id = id;
  target_id = target_id;
  started_at = ts;
  ended_at = none;
  status = status;
  duration_secs = none;
  check_count = 1;
  error_sample = error;
  severity = major;
  public_title = none;
  public_description = none;
  created_at = none;
  updated_at = none;
  updates = [];
  regions_down = [];
  regions_up = [];
}
