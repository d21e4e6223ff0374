-- ===== src/Domain/Channel.antt =====
-- Notification channels by the fields that decide whether one is notified:
-- crates/core/src/domain/notification_channel/mod.rs. The configurations of the
-- transports are not modelled.
use statuspage.Base.{String, Bool, true, false, ◌&&◌, Option, is_none}
use statuspage.Domain.Time.{Uuid, DateTime}

pub data ChannelKind : Type 0 where
  webhook slack telegram telegram_app whatsapp whatsapp_app discord msteams : ChannelKind
  google_chat email pagerduty ntfy pushover sms opsgenie gotify matrix mattermost : ChannelKind
  rocketchat webex zulip github gitlab gitea ilert incidentio squadcast signl4 : ChannelKind
  datadog newrelic splunk line signal clickup ifttt zapier n8n home_assistant : ChannelKind
  aws_ses send_grid : ChannelKind

pub record NotificationChannel : Type 0 where
  pub id : Uuid
  pub name : String
  pub kind : ChannelKind
  pub enabled : Bool
  pub verified_at : Option DateTime

abbrev pub is_email : ChannelKind → Bool
is_email email = true
is_email _ = false

unfoldable pub awaiting_verification : NotificationChannel → Bool
awaiting_verification c = is_email c.kind && is_none c.verified_at
