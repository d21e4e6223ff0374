-- ===== src/Server/Subscribers/Message.antt =====
-- The message of a delivery, and its way out: `dispatch_delivery` and `parse_payload_for_email` of
-- bin/status-server/src/subscriber_dispatch.rs.
use Prim.Native.Char.{Char, code}
use Prim.Native.String.{◌++◌}
use statuspage.Base.{
  ℕ, Bool, false, ◌&&◌, ◌==◌, if◌then◌else◌, Option, none, some, String, unwrap_or, ◌⊎◌, inl, inr,
}
use statuspage.Domain.Time.{Uuid}
use statuspage.Domain.Status.{
  DeliveryReason, incident_opened, incident_resolved, incident_update, maintenance_started,
  maintenance_ended,
}
use statuspage.Domain.Delivery.{SubscriberDelivery, SubscriberChannel, email, webhook, slack, sms}

pub record EmailAddress : Type 0 where
  pub address : String
  pub name : String

-- The variant of `EmailTemplate` that the dispatcher sends.
pub record SubscriberIncident : Type 0 where
  pub page_name : String
  pub incident_title : String
  pub phase : String
  pub message : String
  pub incident_url : String
  pub unsubscribe_url : String

pub record TransactionalEmail : Type 0 where
  pub to : EmailAddress
  pub sender : EmailAddress
  pub template : SubscriberIncident

-- The email sender, the guarded HTTP client, the `url` crate and the text form of `Uuid`. A parse gives
-- an error's text or the URL, a call the text of its error if it fails. `post_json` is given the text
-- under the key "text".
pub record Outbound : Type 0 where
  pub uuid_text : Uuid → String
  pub parse_url : String → String ⊎ String
  pub send_email : TransactionalEmail → Option String
  pub post_text : String → String → Option String
  pub post_json : String → String → Option String

abbrev is_code : ℕ → Char → Bool
is_code n c = code c == n

-- A line break follows: "\n", or "\r\n" behind the first character.
breaks_next : String → Bool
breaks_next String.[] = false
breaks_next (String.◌∷◌ c s) = is_code 10 c

-- `lines().next()` of a text that is not empty.
line_of : String → String
unfolding breaks_next
line_of String.[] = ""
line_of (String.◌∷◌ c s) =
    let rest = line_of s in
    if is_code 10 c then "" else if is_code 13 c && breaks_next s then "" else String.◌∷◌ c rest

unfoldable pub first_line : String → Option String
unfolding line_of
first_line String.[] = none
first_line (String.◌∷◌ c s) = some (line_of (String.◌∷◌ c s))

-- `trim_end_matches('/')`.
unfoldable pub trim_end_slashes : String → String
trim_end_slashes String.[] = ""
trim_end_slashes (String.◌∷◌ c s) = elim (trim_end_slashes s) [
  | String.[] ↦ if is_code 47 c then "" else String.◌∷◌ c String.[]
  | String.◌∷◌ d rest ↦ String.◌∷◌ c (String.◌∷◌ d rest)
]

unfoldable pub phase_of : DeliveryReason → String
phase_of incident_opened = "investigating"
phase_of incident_resolved = "resolved"
phase_of incident_update = "update"
phase_of maintenance_started = "maintenance"
phase_of maintenance_ended = "maintenance completed"

unfoldable pub parse_payload_for_email : DeliveryReason → String → String × String
unfolding first_line phase_of
parse_payload_for_email reason payload =
    (unwrap_or (first_line payload) "Status update", phase_of reason)

unfoldable pub incident_email : Outbound → String → SubscriberDelivery → TransactionalEmail
unfolding parse_payload_for_email trim_end_slashes
incident_email out base d =
    let (incident_title, phase) = parse_payload_for_email d.reason d.payload in
    record {
      to = record { address = d.target; name = d.target };
      sender = record { address = "no-reply@statuspage.local"; name = "StatusPage" };
      template = record {
        page_name = "Status Page";
        incident_title = incident_title;
        phase = phase;
        message = d.payload;
        incident_url = trim_end_slashes base ++ "/api/public/v1/incidents";
        unsubscribe_url =
            trim_end_slashes base
            ++ "/api/public/v1/subscribers/"
            ++ out.uuid_text d.subscriber_id
            ++ "/unsubscribe";
      };
    }

-- A POST to a parsed URL, or the error of the parse behind its prefix.
abbrev post_to : (String → Option String) → String → String → String ⊎ String → Option String
post_to post prefix target (inl e) = some (prefix ++ target ++ ": " ++ e)
post_to post prefix target (inr url) = post url

-- The error that the channel reports, if any.
unfoldable pub dispatch_over :
    SubscriberChannel → Outbound → String → SubscriberDelivery → Option String
unfolding incident_email
dispatch_over email out base d = out.send_email (incident_email out base d)
dispatch_over webhook out base d =
    post_to (λ url. out.post_text url d.payload) "invalid webhook url " d.target
      (out.parse_url d.target)
dispatch_over slack out base d =
    post_to (λ url. out.post_json url d.payload) "invalid slack webhook url " d.target
      (out.parse_url d.target)
dispatch_over sms out base d = none

unfoldable pub dispatch_delivery : Outbound → String → SubscriberDelivery → Option String
unfolding dispatch_over
dispatch_delivery out base d = dispatch_over d.channel out base d
