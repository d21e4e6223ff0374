-- ===== src/Domain/Page.antt =====
-- Status pages, their components and their subscribers, by the fields that the incident writer
-- reads: crates/core/src/domain/status_page.rs and subscriber.rs. A component carries the page of its
-- key in the storage.
use statuspage.Base.{String, Bool, Option, is_some}
use statuspage.Domain.Time.{Uuid, DateTime}
use statuspage.Domain.Delivery.{SubscriberChannel}

pub record StatusPage : Type 0 where
  pub id : Uuid
  pub enabled : Bool
  pub created_at : DateTime

pub record StatusPageComponent : Type 0 where
  pub status_page_id : Uuid
  pub target_id : Uuid

pub record Subscriber : Type 0 where
  pub id : Uuid
  pub status_page_id : Uuid
  pub channel : SubscriberChannel
  pub target : String
  pub verified_at : Option DateTime
  pub created_at : DateTime

unfoldable pub is_verified : Subscriber → Bool
is_verified s = is_some s.verified_at
