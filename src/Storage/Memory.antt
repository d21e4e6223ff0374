-- ===== src/Storage/Memory.antt =====
-- `MemoryStorage` of crates/storage/src/memory.rs, by the collections that are modelled, and the
-- errors of crates/storage/src/traits.rs without their message texts. Each operation runs under one
-- write lock, so it is one function from the storage to the storage and its result; `now` is what it
-- reads from the clock.
use statuspage.Base.{List, [], Option, none, some}
use statuspage.Base.Dict.{Dict}
use statuspage.Domain.Incident.{Incident}
use statuspage.Domain.Escalation.{EscalationPolicy, IncidentEscalationState}
use statuspage.Domain.Monitor.{Target, CheckResult}
use statuspage.Domain.Maintenance.{MaintenanceWindow}
use statuspage.Domain.Silence.{SilenceRule}
use statuspage.Domain.Page.{StatusPage, StatusPageComponent, Subscriber}
use statuspage.Domain.Channel.{NotificationChannel}
use statuspage.Domain.Delivery.{SubscriberDelivery}

pub record MemoryStorage : Type 0 where
  pub status_pages : Dict StatusPage
  pub status_page_components : List StatusPageComponent
  pub subscribers : Dict Subscriber
  pub notification_channels : Dict NotificationChannel
  pub targets : Dict Target
  pub results : List CheckResult
  pub incidents : Dict Incident
  pub maintenance_windows : Dict MaintenanceWindow
  pub silence_rules : Dict SilenceRule
  pub subscriber_deliveries : List SubscriberDelivery
  pub escalation_policies : Dict EscalationPolicy
  pub escalation_states : Dict IncidentEscalationState

unfoldable pub new : MemoryStorage
new = record {
  status_pages = [];
  status_page_components = [];
  subscribers = [];
  notification_channels = [];
  targets = [];
  results = [];
  incidents = [];
  maintenance_windows = [];
  silence_rules = [];
  subscriber_deliveries = [];
  escalation_policies = [];
  escalation_states = [];
}

pub data StorageError : Type 0 where
  not_found conflict invalid_input : StorageError

pub data Result {ℓ} (A : Type ℓ) : Type ℓ where
  ok : A → Result A
  err : StorageError → Result A

-- `ok_or_else(|| NotFound(..))`.
abbrev pub or_not_found {ℓ} : {A : Type ℓ} → Option A → Result A
or_not_found none = err not_found
or_not_found (some a) = ok a
