-- ===== src/Domain/Maintenance.antt =====
-- Maintenance windows: crates/core/src/domain/maintenance.rs.
use statuspage.Base.{String, Option, List}
use statuspage.Domain.Time.{Uuid, DateTime}
use statuspage.Domain.Status.{WriteSource}

pub record MaintenanceWindow : Type 0 where
  pub id : Uuid
  pub title : String
  pub description : Option String
  pub starts_at : DateTime
  pub ends_at : DateTime
  pub component_ids : List Uuid
  pub created_at : DateTime
  pub updated_at : DateTime
  pub write_source : WriteSource

pub data MaintenanceFilter : Type 0 where
  active upcoming past all : MaintenanceFilter
