-- ===== src/Domain/Delivery.antt =====
-- Subscriber deliveries: crates/core/src/domain/extras.rs.
use statuspage.Base.{ℕ, String, Option, [], ◌∷◌, find, text_eq}
use statuspage.Domain.Time.{Uuid, DateTime}
use statuspage.Domain.Status.{DeliveryStatus, DeliveryReason}

pub data SubscriberChannel : Type 0 where
  email webhook slack sms : SubscriberChannel

unfoldable pub subscriber_channel_as_db_str : SubscriberChannel → String
subscriber_channel_as_db_str email = "email"
subscriber_channel_as_db_str webhook = "webhook"
subscriber_channel_as_db_str slack = "slack"
subscriber_channel_as_db_str sms = "sms"

-- The first of `ALL` with the text.
unfoldable pub subscriber_channel_from_db_str : String → Option SubscriberChannel
unfolding subscriber_channel_as_db_str
subscriber_channel_from_db_str s =
    find (λ c. text_eq (subscriber_channel_as_db_str c) s) (email ∷ webhook ∷ slack ∷ sms ∷ [])

pub record SubscriberDelivery : Type 0 where
  pub id : Uuid
  pub subscriber_id : Uuid
  pub status_page_id : Uuid
  pub channel : SubscriberChannel
  pub target : String
  pub payload : String
  pub reason : DeliveryReason
  pub status : DeliveryStatus
  pub attempts : ℕ
  pub last_error : Option String
  pub created_at : DateTime
  pub sent_at : Option DateTime
  pub next_attempt_at : Option DateTime
