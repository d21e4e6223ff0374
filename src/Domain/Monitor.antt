-- ===== src/Domain/Monitor.antt =====
-- Monitored targets and the results of their checks: crates/core/src/domain/target.rs and result.rs.
-- Of a target the fields that the modelled code copies or reads are here; its check specification,
-- interval and region policy are not.
use statuspage.Base.{ℕ, String, Bool, Option, List}
use statuspage.Domain.Time.{Uuid, DateTime}
use statuspage.Domain.Status.{CheckStatus, WriteSource}

pub record Target : Type 0 where
  pub id : Uuid
  pub name : String
  pub enabled : Bool
  pub tags : List String
  pub alerts : List Uuid
  pub alert_confirmations : ℕ
  pub notify_recovery : Bool
  pub renotify_interval_secs : ℕ
  pub group_name : Option String
  pub owner_user_id : Option Uuid
  pub escalation_policy_id : Option Uuid
  pub created_at : DateTime
  pub updated_at : DateTime
  pub write_source : WriteSource

pub record CheckResult : Type 0 where
  pub target_id : Uuid
  pub org_id : Uuid
  pub timestamp : DateTime
  pub status : CheckStatus
  pub duration_ms : ℕ
  pub dns_ms : Option ℕ
  pub connect_ms : Option ℕ
  pub tls_ms : Option ℕ
  pub ttfb_ms : Option ℕ
  pub response_code : Option ℕ
  pub response_size : Option ℕ
  pub error : Option String
