-- ===== src/Server/Dispatch.antt =====
-- Whom an incident change is announced to: `dispatch_to_target_channels` of
-- bin/status-server/src/incident_writer/channel_dispatch.rs, as the list of notices that it spawns
-- sends for, and `enqueue_subscriber_deliveries` of bin/status-server/src/incident_writer.rs.
pub mod Frame
pub mod Notified
use statuspage.Base.{
  ℕ, suc, Bool, true, false, not, ◌&&◌, ◌==◌, String, Option, none, some, List, [], ◌∷◌, map, ltb,
  if◌then◌else◌, filter, any, length, ◌+◌,
}
use statuspage.Base.Dict.{get, values}
use statuspage.Base.Sort.{sort_by}
use statuspage.Domain.Time.{Uuid, DateTime}
use statuspage.Domain.Status.{DeliveryReason, incident_resolved}
use statuspage.Domain.Incident.{Incident}
use statuspage.Domain.Silence.{SilenceRule, matches}
use statuspage.Domain.Page.{StatusPage, StatusPageComponent, Subscriber, is_verified}
use statuspage.Domain.Channel.{NotificationChannel, awaiting_verification}
use statuspage.Storage.Memory.{MemoryStorage, ok, err}
use statuspage.Storage.Results.{get_target}
use statuspage.Storage.Silences.{list_active_silences_for_target}
use statuspage.Storage.Deliveries.{enqueue_delivery}

pub data NoticeReason : Type 0 where
  opened resolved : NoticeReason

pub record Notice : Type 0 where
  pub channel_id : Uuid
  pub incident_id : Uuid
  pub reason : NoticeReason

abbrev pub notice_reason : DeliveryReason → NoticeReason
notice_reason incident_resolved = resolved
notice_reason _ = opened

unfoldable pub silenced : List SilenceRule → Uuid → Uuid → DeliveryReason → Bool
silenced rules target_id channel_id reason =
    any (λ r. matches r target_id (some channel_id) reason) rules

-- The tests of the loop's body on a channel that was found.
unfoldable pub wants_notice : List SilenceRule → Uuid → DeliveryReason → NotificationChannel → Bool
unfolding silenced awaiting_verification
wants_notice rules target_id reason c =
    c.enabled && (not (awaiting_verification c) && not (silenced rules target_id c.id reason))

unfoldable pub notify_bound :
    List SilenceRule → Uuid → Incident → DeliveryReason → MemoryStorage → List Uuid → List Notice
unfolding wants_notice
notify_bound rules target_id incident reason m [] = []
notify_bound rules target_id incident reason m (channel_id ∷ rest) =
    let others = notify_bound rules target_id incident reason m rest in
    elim (get channel_id m.notification_channels) [
      | none ↦ others
      | some c ↦
          if wants_notice rules target_id reason c
          then record {
            channel_id = c.id;
            incident_id = incident.id;
            reason = notice_reason reason;
          }
            ∷ others
          else others
    ]

unfoldable pub dispatch_to_target_channels :
    DateTime → Incident → DeliveryReason → MemoryStorage → List Notice
unfolding notify_bound get_target
dispatch_to_target_channels now incident reason m =
    if incident.target_id == 0 then [] else elim (get_target incident.target_id m) [
      | err e ↦ []
      | ok target ↦
          notify_bound (list_active_silences_for_target now target.id m) target.id incident reason m
            target.alerts
    ]

-- The enabled pages that show the target, oldest first.
unfoldable pub pages_with_target : Uuid → MemoryStorage → List Uuid
pages_with_target target_id m =
    map (λ p. p.id)
      (filter
        (λ p.
          p.enabled
          && any (λ c. c.status_page_id == p.id && c.target_id == target_id)
              m.status_page_components)
        (sort_by (λ a b. ltb a.created_at b.created_at) (values m.status_pages)))

unfoldable pub list_subscribers : Uuid → MemoryStorage → List Subscriber
list_subscribers status_page_id m =
    sort_by (λ a b. ltb a.created_at b.created_at)
      (filter (λ s. s.status_page_id == status_page_id) (values m.subscribers))

-- What the writer takes from its surroundings: the clock, the ids it draws and the texts it formats.
pub record Surroundings : Type 0 where
  pub now : DateTime
  pub new_id : Uuid
  pub delivery_id : ℕ → Uuid
  pub title : Uuid → String
  pub payload : Incident → DeliveryReason → String

-- One row for each verified subscriber; `drawn` delivery ids are used up.
unfoldable pub enqueue_for :
    Surroundings
    → Incident
    → DeliveryReason
    → Uuid
    → ℕ
    → List Subscriber
    → MemoryStorage
    → MemoryStorage
unfolding is_verified enqueue_delivery
enqueue_for env incident reason page_id drawn [] m = m
enqueue_for env incident reason page_id drawn (s ∷ ss) m =
    enqueue_for env incident reason page_id (suc drawn) ss (
      if is_verified s
      then enqueue_delivery env.now (env.delivery_id drawn) s.id page_id s.channel s.target
          (env.payload incident reason) reason m
      else m)

unfoldable pub enqueue_pages :
    Surroundings → Incident → DeliveryReason → ℕ → List Uuid → MemoryStorage → MemoryStorage
unfolding enqueue_for list_subscribers
enqueue_pages env incident reason drawn [] m = m
enqueue_pages env incident reason drawn (p ∷ ps) m =
    let subscribers = list_subscribers p m in
    enqueue_pages env incident reason (length subscribers + drawn) ps
      (enqueue_for env incident reason p drawn subscribers m)

unfoldable pub enqueue_subscriber_deliveries :
    Surroundings → Incident → DeliveryReason → MemoryStorage → MemoryStorage
unfolding enqueue_pages pages_with_target
enqueue_subscriber_deliveries env incident reason m =
    enqueue_pages env incident reason 0 (pages_with_target incident.target_id m) m
